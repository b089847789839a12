-- ===== src/Xml/Elements.antt =====
-- The loops that walk over sibling elements.
use aerosuite.Base.{
  ℕ, zero, suc, ◌+◌, ◌<◌, ◌≡◌, refl, sym, ap, ◌∙◌, Bytes, Option, none, some, List, [], ◌∷◌, ◌++◌,
  length, arith, drop, length-append, drop-append, length-drop-lt, Option-cases, inl, inr, ◌≢◌,
}
use mathlib.Core.List.{append_assoc, append-nil}
use aerosuite.Xml.{
  open_tag, close_tag, cons_before, split_first, extract_balanced, after_element, elements,
  then_one,
}
use aerosuite.Xml.Loop.{extract_balanced-scan, scan_after}
use aerosuite.Xml.Find.{split_first-here, split_first-later, split_first-empty}
use aerosuite.Xml.Tree.{
  Content, done, text, element, print, IsName, IsText, IsWellFormed, strip-same, strip-other,
}
use aerosuite.Xml.Printed.{extract_balanced-print, append-four}

abbrev after_text : Bytes → Option (Bytes × Bytes) → Option (Bytes × Bytes)
after_text t none = none
after_text t (some (before, after)) = some (t ++ before, after)

after_text-empty : (o : Option (Bytes × Bytes)) → after_text [] o ≡ o
after_text-empty none = refl
after_text-empty (some p) = refl

cons-after_text :
    (c : ℕ) (t : Bytes) (o : Option (Bytes × Bytes))
    → cons_before c (after_text t o) ≡ after_text (c ∷ t) o
cons-after_text c t none = refl
cons-after_text c t (some p) = refl

split_first-text :
    (p t s : Bytes)
    → IsText t
    → split_first (60 ∷ p) (t ++ s) ≡ after_text t (split_first (60 ∷ p) s)
split_first-text p [] s h = sym (after_text-empty _)
split_first-text p (c ∷ t) s h =
    split_first-later (60 ∷ p) c (t ++ s) (strip-other 60 p c (t ++ s) h.0)
    ∙ ap (λ o. cons_before c o) (split_first-text p t s h.1)
    ∙ cons-after_text c t (split_first (60 ∷ p) s)

-- The contents of the elements at the top.
unfoldable pub items : Content → List Bytes
unfolding print
items done = []
items (text t after) = items after
items (element name inside after) = print inside ∷ items after

-- The elements at the top all have the name.
unfoldable pub OnlyNamed : Bytes → Content → Type 0
OnlyNamed tag done = Unit {0}
OnlyNamed tag (text t after) = OnlyNamed tag after
OnlyNamed tag (element name inside after) = (name ≡ tag) × OnlyNamed tag after

IsText-append : (t s : Bytes) → IsText t → IsText s → IsText (t ++ s)
IsText-append [] s h k = k
IsText-append (c ∷ t) s h k = (h.0, IsText-append t s h.1 k)

drop-four :
    (a b c d rest : Bytes)
    → drop (length a + length b + length c + length d) (a ++ (b ++ (c ++ (d ++ rest)))) ≡ rest
drop-four a b c d rest =
    let w = a ++ (b ++ (c ++ d)) in
    let size : length a + length b + length c + length d ≡ length w =
      rw (length-append a (b ++ (c ++ d)), length-append b (c ++ d), length-append c d)
        (omega arith) in
    let split : a ++ (b ++ (c ++ (d ++ rest))) ≡ w ++ rest = sym (append-four a b c d rest) in
    rw (size, split) (drop-append w rest)

length-element :
    (tag inside after : Bytes)
    → length after < length (open_tag tag ++ (inside ++ (close_tag tag ++ after)))
length-element tag inside after =
    let w = length-append (tag ++ 62 ∷ []) (inside ++ (close_tag tag ++ after)) in
    let v = length-append inside (close_tag tag ++ after) in
    let u = length-append (tag ++ 62 ∷ []) after in omega arith

none≢some : {A : Type 0} {a : A} → none ≢ some a
none≢some e = ground (arith, e)

then_one-some :
    (inner : Bytes) (rest : Option (List Bytes)) → rest ≢ none → then_one inner rest ≢ none
then_one-some inner none h = λ k. h refl
then_one-some inner (some xs) h = λ k. none≢some (sym k)

module _ (tag : Bytes) (tag_IsName : IsName tag) where
  extract-none : (s : Bytes) → split_first (open_tag tag) s ≡ none → extract_balanced s tag ≡ none
  unfolding scan_after
  extract-none s e = extract_balanced-scan s tag ∙ rw e refl

  split_first-element :
      (t s : Bytes) → IsText t → split_first (open_tag tag) (t ++ (open_tag tag ++ s)) ≡ some (t, s)
  split_first-element t s h =
      split_first-text (tag ++ 62 ∷ []) t (open_tag tag ++ s) h
      ∙ ap (λ o. after_text t o)
          (split_first-here (open_tag tag) (open_tag tag ++ s) s (strip-same (open_tag tag) s))
      ∙ ap (λ l. some (l, s)) (append-nil t)

  after_element-print :
      (t inside rest : Bytes)
      → IsText t
      → after_element tag inside (t ++ (open_tag tag ++ (inside ++ (close_tag tag ++ rest)))) ≡ rest
  unfolding after_element
  after_element-print t inside rest h =
      rw (split_first-element t (inside ++ (close_tag tag ++ rest)) h, after_element)
        (drop-four t (open_tag tag) inside (close_tag tag) rest)

  -- `t` is the text since the last element.
  elements-from :
      (x : Content) (fuel : ℕ) (t : Bytes)
      → IsText t
      → IsWellFormed x
      → OnlyNamed tag x
      → length (print x) < fuel
      → elements fuel tag (t ++ print x) ≡ some (items x)
  unfolding elements items OnlyNamed IsWellFormed print
  elements-from x zero t h w o f = absurd (omega arith)
  elements-from done (suc fuel) t h w o f =
      let nothing : split_first (open_tag tag) (t ++ []) ≡ none =
        split_first-text (tag ++ 62 ∷ []) t [] h
        ∙ ap (λ o. after_text t o) (split_first-empty (open_tag tag) (omega arith)) in
      rw (extract-none (t ++ []) nothing, elements, print) refl
  elements-from (text t' after) (suc fuel) t h w o f =
      let size = length-append t' (print after) in
      rw (sym (append_assoc t t' (print after)))
        (elements-from after (suc fuel) (t ++ t') (IsText-append t t' h w.0) w.1 o (omega arith))
  elements-from (element name inside after) (suc fuel) t h w o f =
      let rest = print inside ++ (close_tag tag ++ print after) in
      let haystack = t ++ (open_tag tag ++ rest) in
      let same : print (element name inside after) ≡ open_tag tag ++ rest =
        ap (λ n. open_tag n ++ (print inside ++ (close_tag n ++ print after))) o.0 in
      let found : extract_balanced haystack tag ≡ some (print inside) =
        extract_balanced-print tag haystack t inside (print after) tag_IsName w.1
          (split_first-element t rest h) in
      let left : after_element tag (print inside) haystack ≡ print after =
        after_element-print t (print inside) (print after) h in
      let size = length-element tag (print inside) (print after) in
      let all = ap (λ s. length s) same in
      let later : elements fuel tag (print after) ≡ some (items after) =
        elements-from after fuel [] tt w.2 o.1 (omega arith) in
      ap (λ s. elements (suc fuel) tag (t ++ s)) same
      ∙ rw (found, left, later, elements, items) refl

  -- The loop over the elements of a printed content with no other elements at the top gives their contents,
  -- on any fuel above the length.
  pub elements-print :
      (x : Content) (fuel : ℕ)
      → IsWellFormed x
      → OnlyNamed tag x
      → length (print x) < fuel
      → elements fuel tag (print x) ≡ some (items x)
  elements-print x fuel w o f = elements-from x fuel [] tt w o f

  after_element-shorter :
      (inner s : Bytes)
      → extract_balanced s tag ≡ some inner
      → length (after_element tag inner s) < length s
  unfolding after_element
  after_element-shorter inner [] e =
      let none_left = extract-none [] (split_first-empty (open_tag tag) (omega arith)) in
      absurd (none≢some (sym none_left ∙ e))
  after_element-shorter inner (c ∷ s) e = elim (Option-cases (split_first (open_tag tag) (c ∷ s))) [
    | inl k ↦ absurd (none≢some (sym (extract-none (c ∷ s) k) ∙ e))
    | inr ((before, after), k) ↦
        rw (k, after_element)
          (length-drop-lt
            (length before + length (open_tag tag) + length inner + length (close_tag tag)) c s
            (omega arith))
  ]

  -- On any text the loop ends within a round for each character and one more.
  pub elements-terminates : (fuel : ℕ) (s : Bytes) → length s < fuel → elements fuel tag s ≢ none
  unfolding elements
  elements-terminates zero s h = absurd (omega arith)
  elements-terminates (suc fuel) s h = elim (Option-cases (extract_balanced s tag)) [
    | inl e ↦ rw (e, elements) (λ k. none≢some (sym k))
    | inr (inner, e) ↦
        let shorter = after_element-shorter inner s e in
        rw (e, elements)
          (then_one-some inner (elements fuel tag (after_element tag inner s))
            (elements-terminates fuel (after_element tag inner s) (omega arith)))
  ]
