-- ===== src/Xml/Scan.antt =====
-- extract_balanced against one pass from left to right.
use aerosuite.Base.{
  ℕ, zero, suc, ◌+◌, ◌-◌, ◌≡◌, refl, Bytes, true, false, Option, none, some, [], ◌∷◌, ◌++◌, nat_beq,
  ltb, length, strip_prefix, is_some, if◌then◌else◌, arith, Bool-cases, inl, inr, ◌<◌, sym, ap, ◌∙◌,
  Bool, strip_prefix-append,
}
use mathlib.Core.List.{append_assoc}
use aerosuite.Xml.Find.{split_first-here, split_first-later, split_first-cons}
use aerosuite.Xml.{
  cons_before, split_first, opens, closes, next_of, balanced_round, balanced_loop, stops,
}

abbrev pub then_char : ℕ → Option Bytes → Option Bytes
then_char c none = none
then_char c (some s) = some (c ∷ s)

-- The text up to the closing tag that balances, with `depth` elements open within: each closing and each
-- opening tag is passed over as a whole (`skip` more of its characters), and every other character alone.
unfoldable pub scan : Bytes → Bytes → ℕ → ℕ → Bytes → Option Bytes
unfolding strip_prefix
scan opening closing skip depth [] = none
scan opening closing (suc skip) depth (c ∷ s) = then_char c (scan opening closing skip depth s)
scan opening closing zero depth (c ∷ s) =
    let shallower = then_char c (scan opening closing (length closing - 1) (depth - 1) s) in
    let deeper = then_char c (scan opening closing (length opening - 1) (depth + 1) s) in
    let same = then_char c (scan opening closing zero depth s) in
    if is_some (strip_prefix closing (c ∷ s))
    then (if nat_beq depth 0 then some [] else shallower)
    else if is_some (strip_prefix opening (c ∷ s))
    then deeper
    else same

abbrev pub with_front : Bytes → Option Bytes → Option Bytes
with_front front none = none
with_front front (some s) = some (front ++ s)

pub scan-skip :
    (opening closing p : Bytes) (depth : ℕ) (s : Bytes)
    → scan opening closing (length p) depth (p ++ s)
      ≡ with_front p (scan opening closing zero depth s)
unfolding scan
scan-skip opening closing [] depth s = ground arith
scan-skip opening closing (c ∷ p) depth s = ground (arith, scan-skip opening closing p depth s)

-- A character before both occurrences moves from the text ahead to the text seen.
module _ (again : ℕ → Bytes → Bytes → Option (Option Bytes)) (opening closing : Bytes) (depth : ℕ)
    (seen : Bytes) (c : ℕ) where
  round-cons :
      (x y : Option (Bytes × Bytes))
      → balanced_round again opening closing depth seen
          (next_of (cons_before c x) (cons_before c y))
        ≡ balanced_round again opening closing depth (seen ++ c ∷ []) (next_of x y)
  unfolding balanced_round
  round-cons none none = refl
  round-cons (some (b, a)) none = refl
  round-cons none (some (b, a)) =
      rw (append_assoc seen (c ∷ []) b, append_assoc seen (c ∷ []) (b ++ closing)) refl
  round-cons (some (b, a)) (some (b', a')) = elim (Bool-cases (ltb (length b) (length b'))) [
    | inl e ↦
        let e' : ltb (suc (length b)) (suc (length b')) ≡ true = ground arith in
        rw (e', e) (rw (append_assoc seen (c ∷ []) (b ++ opening)) refl)
    | inr e ↦
        let e' : ltb (suc (length b)) (suc (length b')) ≡ false = ground arith in
        rw (e', e)
          (rw (append_assoc seen (c ∷ []) b', append_assoc seen (c ∷ []) (b' ++ closing)) refl)
  ]

pub loop-char :
    (fuel : ℕ) (opening closing : Bytes) (depth : ℕ) (seen : Bytes) (c : ℕ) (s : Bytes)
    → strip_prefix opening (c ∷ s) ≡ none
    → strip_prefix closing (c ∷ s) ≡ none
    → balanced_loop (suc fuel) opening closing depth seen (c ∷ s)
      ≡ balanced_loop (suc fuel) opening closing depth (seen ++ c ∷ []) s
unfolding balanced_loop split_first
loop-char fuel opening closing depth seen c s o k =
    rw (o, k)
      (round-cons (λ d t r. balanced_loop fuel opening closing d t r) opening closing depth seen c
        (split_first opening s) (split_first closing s))

next-opens :
    (after : Bytes) (c : ℕ) (b : Bytes × Bytes)
    → next_of (some ([], after)) (cons_before c (some b)) ≡ opens [] after
next-opens after c (b, a) = ground arith

next-closes :
    (x : Option (Bytes × Bytes)) (after : Bytes) → next_of x (some ([], after)) ≡ closes [] after
next-closes none after = refl
next-closes (some (b, a)) after = ground arith

pub loop-opening :
    (fuel : ℕ) (opening closing : Bytes) (depth : ℕ) (seen : Bytes) (c : ℕ) (s after : Bytes)
    (p : Bytes × Bytes)
    → strip_prefix opening (c ∷ s) ≡ some after
    → strip_prefix closing (c ∷ s) ≡ none
    → split_first closing s ≡ some p
    → balanced_loop (suc fuel) opening closing depth seen (c ∷ s)
      ≡ balanced_loop fuel opening closing (depth + 1) (seen ++ opening) after
unfolding balanced_loop balanced_round
loop-opening fuel opening closing depth seen c s after p o k q =
    rw
      (
        split_first-here opening (c ∷ s) after o,
        split_first-later closing c s k,
        q,
        next-opens after c p,
      )
      refl

pub loop-closing :
    (fuel : ℕ) (opening closing : Bytes) (depth : ℕ) (seen s after : Bytes)
    → strip_prefix closing s ≡ some after
    → balanced_loop (suc fuel) opening closing depth seen s ≡ (
        if nat_beq depth 0
        then some (some (seen ++ []))
        else balanced_loop fuel opening closing (depth - 1) (seen ++ closing) after)
unfolding balanced_loop balanced_round
loop-closing fuel opening closing depth seen s after k =
    rw (split_first-here closing s after k, next-closes (split_first opening s) after) refl

same_branches : (b : Bool) (x : Option Bytes) → (if b then x else x) ≡ x
same_branches true x = refl
same_branches false x = refl

-- Without a closing tag ahead the content does not end.
pub scan-none :
    (opening closing : Bytes) (skip depth : ℕ) (s : Bytes)
    → split_first closing s ≡ none
    → scan opening closing skip depth s ≡ none
unfolding scan
scan-none opening closing skip depth [] e = refl
scan-none opening closing (suc skip) depth (c ∷ s) e =
    rw (scan-none opening closing skip depth s (split_first-cons closing c s e).1) refl
scan-none opening closing zero depth (c ∷ s) e =
    let (here, later) = split_first-cons closing c s e in
    let deeper : scan opening closing (length opening - 1) (depth + 1) s ≡ none =
      scan-none opening closing _ _ s later in
    let same : scan opening closing zero depth s ≡ none = scan-none opening closing _ _ s later in
    rw (here, deeper, same) (same_branches (is_some (strip_prefix opening (c ∷ s))) none)

next-stops : (x : Option (Bytes × Bytes)) → next_of x none ≡ stops
next-stops none = refl
next-stops (some b) = refl

pub loop-unclosed :
    (fuel : ℕ) (opening closing : Bytes) (depth : ℕ) (seen s : Bytes)
    → split_first closing s ≡ none
    → balanced_loop (suc fuel) opening closing depth seen s ≡ some none
unfolding balanced_loop balanced_round
loop-unclosed fuel opening closing depth seen s e = rw (e, next-stops (split_first opening s)) refl

pub front_cons :
    (c : ℕ) (p : Bytes) (x : Option Bytes) → then_char c (with_front p x) ≡ with_front (c ∷ p) x
front_cons c p none = refl
front_cons c p (some s) = refl

pub strip-tail :
    (p : ℕ) (ps : Bytes) (c : ℕ) (s after : Bytes)
    → strip_prefix (p ∷ ps) (c ∷ s) ≡ some after
    → (p ≡ c) × (s ≡ ps ++ after)
unfolding strip_prefix
strip-tail p ps c s after e =
    let same : p ≡ c = ground (arith, e) in
    let rest : strip_prefix ps s ≡ some after = ground (arith, e) in
    (same, strip_prefix-append ps s after rest)

-- A tag is passed over as a whole.
scan-pass :
    (opening closing p : Bytes) (depth c : ℕ) (s after : Bytes)
    → 0 < length p
    → strip_prefix p (c ∷ s) ≡ some after
    → then_char c (scan opening closing (length p - 1) depth s)
      ≡ with_front p (scan opening closing zero depth after)
scan-pass opening closing [] depth c s after h e = absurd (omega arith)
scan-pass opening closing (p ∷ ps) depth c s after h e =
    let (same, rest) = strip-tail p ps c s after e in
    let one : length (p ∷ ps) - 1 ≡ length ps = omega arith in
    rw (rest, sym same, one)
      (ap (λ x. then_char p x) (scan-skip opening closing ps depth after)
        ∙ front_cons p ps (scan opening closing zero depth after))

pub scan-closing :
    (opening closing : Bytes) (depth c : ℕ) (s after : Bytes)
    → 0 < length closing
    → strip_prefix closing (c ∷ s) ≡ some after
    → scan opening closing zero depth (c ∷ s) ≡ (
        if nat_beq depth 0
        then some []
        else with_front closing (scan opening closing zero (depth - 1) after))
unfolding scan
scan-closing opening closing depth c s after h e =
    rw (e, scan-pass opening closing closing (depth - 1) c s after h e) refl

pub scan-opening :
    (opening closing : Bytes) (depth c : ℕ) (s after : Bytes)
    → 0 < length opening
    → strip_prefix opening (c ∷ s) ≡ some after
    → strip_prefix closing (c ∷ s) ≡ none
    → scan opening closing zero depth (c ∷ s)
      ≡ with_front opening (scan opening closing zero (depth + 1) after)
unfolding scan
scan-opening opening closing depth c s after h e k =
    rw (k, e, scan-pass opening closing opening (depth + 1) c s after h e) refl

pub scan-char :
    (opening closing : Bytes) (depth c : ℕ) (s : Bytes)
    → strip_prefix opening (c ∷ s) ≡ none
    → strip_prefix closing (c ∷ s) ≡ none
    → scan opening closing zero depth (c ∷ s) ≡ then_char c (scan opening closing zero depth s)
unfolding scan
scan-char opening closing depth c s o k = rw (k, o) refl

pub with_front-append :
    (p q : Bytes) (x : Option Bytes) → with_front p (with_front q x) ≡ with_front (p ++ q) x
with_front-append p q none = refl
with_front-append p q (some s) = rw (append_assoc p q s) refl
