-- ===== src/Xml/Find.antt =====
-- str::find with what stands before and after: where the first occurrence is.
use aerosuite.Base.{
  ℕ, ◌≡◌, refl, Bytes, Option, none, some, [], ◌∷◌, ◌++◌, length, strip_prefix, arith, Option-cases,
  inl, inr, ◌<◌, sym, ap, ◌∙◌, strip_prefix-append,
}
use aerosuite.Xml.{cons_before, split_first}

pub split_first-here : (p s r : Bytes) → strip_prefix p s ≡ some r → split_first p s ≡ some ([], r)
unfolding split_first
split_first-here p [] r e = rw e refl
split_first-here p (c ∷ s) r e = rw e refl

pub split_first-later :
    (p : Bytes) (c : ℕ) (s : Bytes)
    → strip_prefix p (c ∷ s) ≡ none
    → split_first p (c ∷ s) ≡ cons_before c (split_first p s)
unfolding split_first
split_first-later p c s e = rw e refl

abbrev glue : Bytes → Option (Bytes × Bytes) → Bytes
glue p none = []
glue p (some (before, after)) = before ++ (p ++ after)

glue-split_first :
    (p s : Bytes) (x : Bytes × Bytes) → split_first p s ≡ some x → glue p (split_first p s) ≡ s
unfolding split_first
glue-split_first p [] x e = elim (Option-cases (strip_prefix p [])) [
  | inl k ↦ ground (arith, k, e)
  | inr (r, k) ↦ rw k (sym (strip_prefix-append p [] r k))
]
glue-split_first p (c ∷ s) x e = elim (Option-cases (strip_prefix p (c ∷ s))) [
  | inl k ↦ elim (Option-cases (split_first p s)) [
    | inl none_later ↦ ground (arith, k, none_later, e)
    | inr (y, later) ↦
        let rest : glue p (some y) ≡ s =
          ap (λ o. glue p o) (sym later) ∙ glue-split_first p s y later in
        rw (k, later) (ap (λ t. c ∷ t) rest)
  ]
  | inr (r, k) ↦ rw k (sym (strip_prefix-append p (c ∷ s) r k))
]

-- What split_first finds is in the text.
pub split_first-append :
    (p s before after : Bytes) → split_first p s ≡ some (before, after) → s ≡ before ++ (p ++ after)
split_first-append p s before after e =
    sym (glue-split_first p s (before, after) e) ∙ ap (λ o. glue p o) e

pub split_first-cons :
    (p : Bytes) (c : ℕ) (s : Bytes)
    → split_first p (c ∷ s) ≡ none
    → (strip_prefix p (c ∷ s) ≡ none) × (split_first p s ≡ none)
unfolding split_first
split_first-cons p c s e = elim (Option-cases (strip_prefix p (c ∷ s))) [
  | inl h ↦ elim (Option-cases (split_first p s)) [
    | inl g ↦ (h, g)
    | inr (g, f) ↦ ground (arith, h, f, e)
  ]
  | inr (r, h) ↦ ground (arith, h, e)
]

pub split_first-empty : (p : Bytes) → 0 < length p → split_first p [] ≡ none
unfolding split_first strip_prefix
split_first-empty [] h = absurd (omega arith)
split_first-empty (p ∷ ps) h = refl
