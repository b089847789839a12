-- ===== src/Metrics/Names.antt =====
-- aeroscale/src/metrics/exposition.rs: the names of the metrics stand in the map once each, in ascending order.
use aerosuite.Base.{
  lookup, bytes_leb, bytes_eq, bytes_beq_iff, bytes_leb-total, bytes_leb_trans, bytes_leb_antisymm,
  All-mono, beq_self, ◌≡◌, refl, sym, subst, Bytes, Bool, true, false, ◌||◌, Option, List, [], ◌∷◌,
  arith, Bool-cases, inl, inr, ◌==◌, All,
}
use aerosuite.Metrics.{Values, SampleKind, RawSample, BackendMetrics}
use aerosuite.Metrics.Exposition.{Meta, or_insert, meta_of_samples, meta_of}

abbrev pub Entry : Type 0
Entry = Bytes × (SampleKind × Option Bytes)

-- j comes before k and is another name.
abbrev pub Before : Bytes → Bytes → Type 0
Before j k = (bytes_leb j k ≡ true) × (j == k ≡ false)

abbrev pub IsAscending : Meta → Type 0
IsAscending [] = Unit {0}
IsAscending (e ∷ m) = All (λ (f : Entry). Before e.0 f.0) m × IsAscending m

unfoldable pub has : Bytes → Meta → Bool
has n [] = false
has n (e ∷ m) = n == e.0 || has n m

Before-flip : (j k : Bytes) → j == k ≡ false → bytes_leb j k ≡ false → Before k j
Before-flip j k n h = (bytes_leb-total j k h, ground (arith, bytes_beq_iff j k, bytes_beq_iff k j))

Before-trans : (i j k : Bytes) → Before i j → Before j k → Before i k
Before-trans i j k a b =
    let le = bytes_leb_trans i j k a.0 b.0 in
    (
      le,
      elim (Bool-cases (i == k)) [
        | inl e ↦ ground (
          arith,
          e,
          bytes_leb_antisymm i j a.0
              (subst (λ x. bytes_leb j x ≡ true) (sym ((bytes_beq_iff i k).0 e)) b.0),
        )
        | inr e ↦ e
      ],
    )

All-or_insert :
    (P : Bytes → Type 0) (n : Bytes) (v : SampleKind × Option Bytes) (m : Meta)
    → P n
    → All (λ (f : Entry). P f.0) m
    → All (λ (f : Entry). P f.0) (or_insert n v m)
unfolding or_insert
All-or_insert P n v [] h hs = (h, tt)
All-or_insert P n v ((k, w) ∷ m) h hs = elim (Bool-cases (n == k)) [
  | inl e ↦ rw e hs
  | inr e ↦ elim (Bool-cases (bytes_leb n k)) [
    | inl l ↦ rw e (rw l (h, hs))
    | inr l ↦ rw e (rw l (hs.0, All-or_insert P n v m h hs.1))
  ]
]

or_insert-IsAscending :
    (n : Bytes) (v : SampleKind × Option Bytes) (m : Meta)
    → IsAscending m
    → IsAscending (or_insert n v m)
unfolding or_insert
or_insert-IsAscending n v [] h = (tt, tt)
or_insert-IsAscending n v ((k, w) ∷ m) h = elim (Bool-cases (n == k)) [
  | inl e ↦ rw e h
  | inr e ↦ elim (Bool-cases (bytes_leb n k)) [
    | inl l ↦ rw e (
        rw l (
          (
            (l, e),
            All-mono (λ (f : Entry). Before k f.0) (λ (f : Entry). Before n f.0) m
                (λ f b. Before-trans n k f.0 (l, e) b) h.0,
          ),
          h,
        ))
    | inr l ↦ rw e (
        rw l (
          All-or_insert (Before k) n v m (Before-flip n k e l) h.0,
          or_insert-IsAscending n v m h.1,
        ))
  ]
]

has-or_insert :
    (n j : Bytes) (v : SampleKind × Option Bytes) (m : Meta)
    → has j (or_insert n v m) ≡ (j == n || has j m)
unfolding or_insert has
has-or_insert n j v [] = refl
has-or_insert n j v ((k, w) ∷ m) =
    ground (arith, has-or_insert n j v m, bytes_beq_iff n k, bytes_beq_iff j n, bytes_beq_iff j k)

has-or_insert_self :
    (n : Bytes) (v : SampleKind × Option Bytes) (m : Meta) → has n (or_insert n v m) ≡ true
has-or_insert_self n v m = rw has-or_insert (rw (beq_self n))

has-or_insert_mono :
    (n j : Bytes) (v : SampleKind × Option Bytes) (m : Meta)
    → has j m ≡ true
    → has j (or_insert n v m) ≡ true
has-or_insert_mono n j v m h = ground (arith, has-or_insert n j v m)

module _ (X : Values) where
  meta_of_samples-IsAscending :
      (docs : List (Bytes × Bytes)) (ss : List (RawSample X)) (m : Meta)
      → IsAscending m
      → IsAscending (meta_of_samples X docs ss m)
  unfolding meta_of_samples
  meta_of_samples-IsAscending docs [] m h = h
  meta_of_samples-IsAscending docs (s ∷ ss) m h =
      meta_of_samples-IsAscending docs ss (or_insert s.metric (s.kind, lookup s.metric docs) m)
        (or_insert-IsAscending s.metric (s.kind, lookup s.metric docs) m h)

  has-meta_of_samples :
      (docs : List (Bytes × Bytes)) (ss : List (RawSample X)) (m : Meta) (j : Bytes)
      → has j m ≡ true
      → has j (meta_of_samples X docs ss m) ≡ true
  unfolding meta_of_samples
  has-meta_of_samples docs [] m j h = h
  has-meta_of_samples docs (s ∷ ss) m j h =
      has-meta_of_samples docs ss (or_insert s.metric (s.kind, lookup s.metric docs) m) j
        (has-or_insert_mono s.metric j (s.kind, lookup s.metric docs) m h)

  has-samples :
      (docs : List (Bytes × Bytes)) (ss : List (RawSample X)) (m : Meta)
      → All (λ (s : RawSample X). has s.metric (meta_of_samples X docs ss m) ≡ true) ss
  unfolding meta_of_samples
  has-samples docs [] m = tt
  has-samples docs (s ∷ ss) m =
      let m' = or_insert s.metric (s.kind, lookup s.metric docs) m in
      (
        has-meta_of_samples docs ss m' s.metric
            (has-or_insert_self s.metric (s.kind, lookup s.metric docs) m),
        has-samples docs ss m',
      )

  pub meta_of-IsAscending :
      (bs : List (BackendMetrics X)) (m : Meta) → IsAscending m → IsAscending (meta_of X bs m)
  unfolding meta_of
  meta_of-IsAscending [] m h = h
  meta_of-IsAscending (b ∷ bs) m h =
      meta_of-IsAscending bs (meta_of_samples X b.docs b.samples m)
        (meta_of_samples-IsAscending b.docs b.samples m h)

  has-meta_of :
      (bs : List (BackendMetrics X)) (m : Meta) (j : Bytes)
      → has j m ≡ true
      → has j (meta_of X bs m) ≡ true
  unfolding meta_of
  has-meta_of [] m j h = h
  has-meta_of (b ∷ bs) m j h =
      has-meta_of bs (meta_of_samples X b.docs b.samples m) j
        (has-meta_of_samples b.docs b.samples m j h)

  -- Every sample of the backends has its name in the map.
  abbrev pub Covers : Meta → List (BackendMetrics X) → Type 0
  Covers m =
      All (λ (b : BackendMetrics X). All (λ (s : RawSample X). has s.metric m ≡ true) b.samples)

  pub meta_of-Covers : (bs : List (BackendMetrics X)) (m : Meta) → Covers (meta_of X bs m) bs
  unfolding meta_of
  meta_of-Covers [] m = tt
  meta_of-Covers (b ∷ bs) m =
      let m' = meta_of_samples X b.docs b.samples m in
      (
        All-mono (λ (s : RawSample X). has s.metric m' ≡ true)
            (λ (s : RawSample X). has s.metric (meta_of X bs m') ≡ true) b.samples
            (λ s h. has-meta_of bs m' s.metric h) (has-samples b.docs b.samples m),
        meta_of-Covers bs m',
      )
