-- ===== src/Metrics/Lines.antt =====
-- aeroscale/src/metrics/exposition.rs: which lines the text has, and how often.
use mathlib.Core.Path.{fun_ext}
use aerosuite.Base.{
  bytes_eq, bytes_beq_iff, count_by, count_by-append, ℕ, ◌+◌, ◌≡◌, refl, ap, ◌∙◌, Bytes, Bool, true,
  false, Option, none, some, List, [], ◌∷◌, ◌++◌, if◌then◌else◌, is_some, arith, Bool-cases, inl,
  inr, ◌==◌, All,
}
use aerosuite.Metrics.{Values, RawSample, BackendMetrics, MetricsState}
use aerosuite.Metrics.Names.{
  Entry, Before, IsAscending, has, Covers, meta_of-IsAscending, meta_of-Covers,
}
use aerosuite.Metrics.Exposition.{
  Meta, meta_of, help_line, type_line, help_lines, as_str, sample_line, lines_of, lines_under,
  metric_blocks, error_block, bandwidth_block, format_lines,
}

-- A number for each name, summed over the map.
unfoldable pub sum_over : (Bytes → ℕ) → Meta → ℕ
sum_over f [] = 0
sum_over f (e ∷ m) = f e.0 + sum_over f m

sum_over-add :
    (f g : Bytes → ℕ) (m : Meta) → sum_over (λ n. f n + g n) m ≡ sum_over f m + sum_over g m
unfolding sum_over
sum_over-add f g [] = omega arith
sum_over-add f g (e ∷ m) = omega (arith, sum_over-add f g m)

sum_over-zero : (m : Meta) → sum_over (λ n. 0) m ≡ 0
unfolding sum_over
sum_over-zero [] = refl
sum_over-zero (e ∷ m) = omega (arith, sum_over-zero m)

sum_over-if :
    (b : Bool) (f : Bytes → ℕ) (m : Meta)
    → sum_over (λ n. if b then 0 else f n) m ≡ (if b then 0 else sum_over f m)
sum_over-if true f m = sum_over-zero m
sum_over-if false f m = refl

abbrev only_at : Bytes → ℕ → Bytes → ℕ
only_at j c n = if j == n then c else 0

sum_over-after :
    (j k : Bytes) (c : ℕ) (m : Meta)
    → j == k ≡ true
    → All (λ (f : Entry). Before k f.0) m
    → sum_over (only_at j c) m ≡ 0
unfolding sum_over
sum_over-after j k c [] e h = refl
sum_over-after j k c (f ∷ m) e h =
    ground (arith, sum_over-after j k c m e h.1, h.0.1, bytes_beq_iff j k, e)

-- Each name of an ascending map is met once.
sum_over-once :
    (j : Bytes) (c : ℕ) (m : Meta) → IsAscending m → has j m ≡ true → sum_over (only_at j c) m ≡ c
unfolding sum_over has
sum_over-once j c [] h k = cc
sum_over-once j c (e ∷ m) h k = elim (Bool-cases (j == e.0)) [
  | inl p ↦ rw p (omega (arith, sum_over-after j e.0 c m p h.0))
  | inr p ↦ rw p (omega (arith, sum_over-once j c m h.1 (ground (arith, p, k))))
]

module _ (X : Values) (p : Bytes → Bool) where
  -- The lines of the samples of the backends without an error that pass the test.
  abbrev pub samples_of : ℕ → List (RawSample X) → ℕ
  samples_of slot [] = 0
  samples_of slot (s ∷ ss) = (if p (sample_line X slot s) then 1 else 0) + samples_of slot ss

  abbrev pub samples_in : List (BackendMetrics X) → ℕ
  samples_in [] = 0
  samples_in (b ∷ bs) = (if is_some b.error then 0 else samples_of b.slot b.samples) + samples_in bs

  abbrev one : ℕ → RawSample X → ℕ
  one slot s = if p (sample_line X slot s) then 1 else 0

  count-lines_of :
      (slot : ℕ) (s : RawSample X) (ss : List (RawSample X)) (name : Bytes)
      → count_by p (lines_of X name slot (s ∷ ss))
        ≡ only_at s.metric (one slot s) name + count_by p (lines_of X name slot ss)
  unfolding lines_of
  count-lines_of slot s ss name = elim (Bool-cases (s.metric == name)) [
    | inl e ↦ rw e refl
    | inr e ↦ rw e (omega arith)
  ]

  sum-lines_of :
      (slot : ℕ) (ss : List (RawSample X)) (m : Meta)
      → IsAscending m
      → All (λ (s : RawSample X). has s.metric m ≡ true) ss
      → sum_over (λ name. count_by p (lines_of X name slot ss)) m ≡ samples_of slot ss
  sum-lines_of slot [] m h c = unfold lines_of in sum_over-zero m
  sum-lines_of slot (s ∷ ss) m h c =
      ap (λ f. sum_over f m) (fun_ext (count-lines_of slot s ss))
      ∙ (sum_over-add (only_at s.metric (one slot s)) (λ name. count_by p (lines_of X name slot ss))
            m
          ∙ omega
              (arith, sum_over-once s.metric (one slot s) m h c.0, sum-lines_of slot ss m h c.1))

  abbrev count_in : BackendMetrics X → Bytes → ℕ
  count_in b name = if is_some b.error then 0 else count_by p (lines_of X name b.slot b.samples)

  count-lines_under :
      (b : BackendMetrics X) (bs : List (BackendMetrics X)) (name : Bytes)
      → count_by p (lines_under X name (b ∷ bs))
        ≡ count_in b name + count_by p (lines_under X name bs)
  unfolding lines_under
  count-lines_under b bs name = elim (Bool-cases (is_some b.error)) [
    | inl e ↦ rw e (omega arith)
    | inr e ↦ rw e (count_by-append p (lines_of X name b.slot b.samples) (lines_under X name bs))
  ]

  sum-count_in :
      (b : BackendMetrics X) (m : Meta)
      → IsAscending m
      → All (λ (s : RawSample X). has s.metric m ≡ true) b.samples
      → sum_over (count_in b) m ≡ (if is_some b.error then 0 else samples_of b.slot b.samples)
  sum-count_in b m h c =
      sum_over-if (is_some b.error) (λ name. count_by p (lines_of X name b.slot b.samples)) m
      ∙ ap (λ k. if is_some b.error then 0 else k) (sum-lines_of b.slot b.samples m h c)

  sum-lines_under :
      (bs : List (BackendMetrics X)) (m : Meta)
      → IsAscending m
      → Covers X m bs
      → sum_over (λ name. count_by p (lines_under X name bs)) m ≡ samples_in bs
  sum-lines_under [] m h c = unfold lines_under in sum_over-zero m
  sum-lines_under (b ∷ bs) m h c =
      ap (λ f. sum_over f m) (fun_ext (count-lines_under b bs))
      ∙ (sum_over-add (count_in b) (λ name. count_by p (lines_under X name bs)) m
          ∙ omega (arith, sum-count_in b m h c.0, sum-lines_under bs m h c.1))

  module _ (comments : (line : Bytes) → p (b'#' ∷ line) ≡ false) where
    count-help_lines : (name : Bytes) (help : Option Bytes) → count_by p (help_lines name help) ≡ 0
    unfolding help_line
    count-help_lines name none = refl
    count-help_lines name (some h) = rw comments refl

    count-type_line :
        (name kind : Bytes) (rest : List Bytes)
        → count_by p (type_line name kind ∷ rest) ≡ count_by p rest
    unfolding type_line
    count-type_line name kind rest = rw comments (omega arith)

    count-metric_blocks :
        (bs : List (BackendMetrics X)) (m : Meta)
        → count_by p (metric_blocks X bs m)
          ≡ sum_over (λ name. count_by p (lines_under X name bs)) m
    unfolding metric_blocks sum_over
    count-metric_blocks bs [] = refl
    count-metric_blocks bs ((name, (kind, help)) ∷ m) =
        let others = lines_under X name bs ++ metric_blocks X bs m in
        omega (
          arith,
          count_by-append p (help_lines name help) (type_line name (as_str kind) ∷ others),
          count-help_lines name help,
          count-type_line name (as_str kind) others,
          count_by-append p (lines_under X name bs) (metric_blocks X bs m),
          count-metric_blocks bs m,
        )

    -- Whatever lines are counted that are no comments (no # at their start), format has as many of them as
    -- the samples of the backends without an error have lines, each sample one line with its backend's
    -- slot, and as many more as stand in the block of the failed scrapes and in the block of the bandwidth.
    pub count-format_lines :
        (state : MetricsState X)
        → count_by p (format_lines X state)
          ≡ samples_in state.backends
            + (count_by p (error_block X state.backends) + count_by p (bandwidth_block X state))
    unfolding format_lines
    count-format_lines state =
        let m = meta_of X state.backends [] in
        omega (
          arith,
          count_by-append p (metric_blocks X state.backends m)
              (error_block X state.backends ++ bandwidth_block X state),
          count_by-append p (error_block X state.backends) (bandwidth_block X state),
          count-metric_blocks state.backends m,
          sum-lines_under state.backends m (meta_of-IsAscending X state.backends [] tt)
              (meta_of-Covers X state.backends []),
        )
