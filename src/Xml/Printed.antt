-- ===== src/Xml/Printed.antt =====
-- What extract_balanced returns from a text that a tree prints.
use aerosuite.Base.{
  ℕ, zero, ◌+◌, ◌-◌, ◌≡◌, refl, sym, ap, ◌∙◌, subst, Bytes, false, Option, none, some, [], ◌∷◌,
  ◌++◌, nat_beq, if◌then◌else◌, strip_prefix, arith, Bool-cases, inl, inr, ◌≢◌, bytes_beq,
  bytes_beq_iff, bytes_eq,
}
use mathlib.Core.Bool.{false≢true}
use mathlib.Core.List.{append_assoc, append-nil}
use aerosuite.Xml.{open_tag, close_tag, split_first, extract_balanced}
use aerosuite.Xml.Scan.{
  scan, with_front, with_front-append, then_char, scan-closing, scan-opening, scan-char, front_cons,
}
use aerosuite.Xml.Loop.{scan_after, extract_balanced-scan, with_front-empty}
use aerosuite.Xml.Tree.{
  Content, print, IsName, IsText, IsWellFormed, strip-same, strip-other, strip-name, strip-slash,
  strip-no_slash, strip-cons, name-IsText, done, text, element,
}

pub append-four : (a b c d s : Bytes) → (a ++ (b ++ (c ++ d))) ++ s ≡ a ++ (b ++ (c ++ (d ++ s)))
append-four a b c d s =
    rw (append_assoc a (b ++ (c ++ d)) s, append_assoc b (c ++ d) s, append_assoc c d s) refl

module _ (tag : Bytes) (tag_IsName : IsName tag) where
  within : ℕ → Bytes → Option Bytes
  within depth s = scan (open_tag tag) (close_tag tag) zero depth s

  pass-char :
      (c : ℕ) (depth : ℕ) (s : Bytes) → c ≢ 60 → within depth (c ∷ s) ≡ then_char c (within depth s)
  unfolding within
  pass-char c depth s d =
      scan-char (open_tag tag) (close_tag tag) depth c s (strip-other 60 (tag ++ 62 ∷ []) c s d)
        (strip-other 60 (47 ∷ (tag ++ 62 ∷ [])) c s d)

  pass-text :
      (t : Bytes) (depth : ℕ) (s : Bytes)
      → IsText t
      → within depth (t ++ s) ≡ with_front t (within depth s)
  pass-text [] depth s h = sym (with_front-empty (within depth s))
  pass-text (c ∷ t) depth s h =
      pass-char c depth (t ++ s) h.0
      ∙ ap (λ x. then_char c x) (pass-text t depth s h.1)
      ∙ front_cons c t (within depth s)

  -- Tags of another name are passed over, character by character.
  pass-other_open :
      (name : Bytes) (depth : ℕ) (s : Bytes)
      → IsName name
      → tag ≢ name
      → within depth (open_tag name ++ s) ≡ with_front (open_tag name) (within depth s)
  unfolding within
  pass-other_open name depth s n d =
      let o : strip_prefix (open_tag tag) (open_tag name ++ s) ≡ none =
        strip-cons 60 (tag ++ 62 ∷ []) ((name ++ 62 ∷ []) ++ s)
          (rw (append_assoc name (62 ∷ []) s) (strip-name tag name s tag_IsName n d)) in
      let k : strip_prefix (close_tag tag) (open_tag name ++ s) ≡ none =
        strip-cons 60 (47 ∷ (tag ++ 62 ∷ [])) ((name ++ 62 ∷ []) ++ s)
          (rw (append_assoc name (62 ∷ []) s) (strip-no_slash (tag ++ 62 ∷ []) name s n)) in
      scan-char (open_tag tag) (close_tag tag) depth 60 ((name ++ 62 ∷ []) ++ s) o k
      ∙ ap (λ x. then_char 60 x)
          (unfold within in pass-text (name ++ 62 ∷ []) depth s (name-IsText name n))
      ∙ front_cons 60 (name ++ 62 ∷ []) (within depth s)

  pass-other_close :
      (name : Bytes) (depth : ℕ) (s : Bytes)
      → IsName name
      → tag ≢ name
      → within depth (close_tag name ++ s) ≡ with_front (close_tag name) (within depth s)
  unfolding within
  pass-other_close name depth s n d =
      let o : strip_prefix (open_tag tag) (close_tag name ++ s) ≡ none =
        strip-cons 60 (tag ++ 62 ∷ []) (47 ∷ ((name ++ 62 ∷ []) ++ s))
          (strip-slash tag ((name ++ 62 ∷ []) ++ s) tag_IsName) in
      let k : strip_prefix (close_tag tag) (close_tag name ++ s) ≡ none =
        strip-cons 60 (47 ∷ (tag ++ 62 ∷ [])) (47 ∷ ((name ++ 62 ∷ []) ++ s)) (
          strip-cons 47 (tag ++ 62 ∷ []) ((name ++ 62 ∷ []) ++ s)
            (rw (append_assoc name (62 ∷ []) s) (strip-name tag name s tag_IsName n d))) in
      scan-char (open_tag tag) (close_tag tag) depth 60 (47 ∷ ((name ++ 62 ∷ []) ++ s)) o k
      ∙ ap (λ x. then_char 60 x)
          (unfold within in
            pass-text (47 ∷ (name ++ 62 ∷ [])) depth s
              ((λ e. absurd (omega (arith, e))), name-IsText name n))
      ∙ front_cons 60 (47 ∷ (name ++ 62 ∷ [])) (within depth s)

  pass-open :
      (depth : ℕ) (s : Bytes)
      → within depth (open_tag tag ++ s) ≡ with_front (open_tag tag) (within (depth + 1) s)
  unfolding within
  pass-open depth s =
      let k : strip_prefix (close_tag tag) (open_tag tag ++ s) ≡ none =
        strip-cons 60 (47 ∷ (tag ++ 62 ∷ [])) ((tag ++ 62 ∷ []) ++ s)
          (rw (append_assoc tag (62 ∷ []) s) (strip-no_slash (tag ++ 62 ∷ []) tag s tag_IsName)) in
      scan-opening (open_tag tag) (close_tag tag) depth 60 ((tag ++ 62 ∷ []) ++ s) s (omega arith)
        (strip-same (open_tag tag) s) k

  scan-close :
      (depth : ℕ) (s : Bytes)
      → within depth (close_tag tag ++ s)
        ≡ (if nat_beq depth 0 then some [] else with_front (close_tag tag) (within (depth - 1) s))
  unfolding within
  scan-close depth s =
      scan-closing (open_tag tag) (close_tag tag) depth 60 ((47 ∷ (tag ++ 62 ∷ [])) ++ s) s
        (omega arith) (strip-same (close_tag tag) s)

  pass-close :
      (depth : ℕ) (s : Bytes)
      → within (depth + 1) (close_tag tag ++ s) ≡ with_front (close_tag tag) (within depth s)
  pass-close depth s =
      let deeper : nat_beq (depth + 1) 0 ≡ false = ground arith in
      let back : depth + 1 - 1 ≡ depth = omega arith in
      rw (scan-close (depth + 1) s, deeper, back) refl

  -- The depth within an element, which its tags lead to and back from.
  record Level (name : Bytes) (depth : ℕ) : Type 0 where
    inner : ℕ
    enter :
        (s : Bytes)
        → within depth (open_tag name ++ s) ≡ with_front (open_tag name) (within inner s)
    leave :
        (s : Bytes)
        → within inner (close_tag name ++ s) ≡ with_front (close_tag name) (within depth s)

  level : (name : Bytes) (depth : ℕ) → IsName name → Level name depth
  level name depth n = elim (Bool-cases (bytes_beq tag name)) [
    | inl e ↦
        let same : tag ≡ name = (bytes_beq_iff tag name).0 e in
        subst (λ x. Level x depth) same
          (record { inner = depth + 1; enter = pass-open depth; leave = pass-close depth })
    | inr e ↦
        let differs : tag ≢ name = λ k. false≢true (sym e ∙ (bytes_beq_iff tag name).1 k) in
        record {
          inner = depth;
          enter = λ s. pass-other_open name depth s n differs;
          leave = λ s. pass-other_close name depth s n differs;
        }
  ]

  -- A printed content is passed over as a whole, its elements of the name balanced.
  pass-print :
      (x : Content) (depth : ℕ) (s : Bytes)
      → IsWellFormed x
      → within depth (print x ++ s) ≡ with_front (print x) (within depth s)
  unfolding print IsWellFormed
  pass-print done depth s h = sym (with_front-empty (within depth s))
  pass-print (text t after) depth s h = rw (append_assoc t (print after) s) (
      pass-text t depth (print after ++ s) h.0
      ∙ ap (λ x. with_front t x) (pass-print after depth s h.1)
      ∙ with_front-append t (print after) (within depth s))
  pass-print (element name inside after) depth s h =
      let to = level name depth h.0 in
      let rest = print after ++ s in
      let last : within to.inner (close_tag name ++ rest)
          ≡ with_front (close_tag name ++ print after) (within depth s) =
        to.leave rest
        ∙ ap (λ x. with_front (close_tag name) x) (pass-print after depth s h.2)
        ∙ with_front-append (close_tag name) (print after) (within depth s) in
      let middle : within to.inner (print inside ++ (close_tag name ++ rest))
          ≡ with_front (print inside ++ (close_tag name ++ print after)) (within depth s) =
        pass-print inside to.inner (close_tag name ++ rest) h.1
        ∙ ap (λ x. with_front (print inside) x) last
        ∙ with_front-append (print inside) (close_tag name ++ print after) (within depth s) in
      ap (λ x. within depth x)
        (append-four (open_tag name) (print inside) (close_tag name) (print after) s)
      ∙ to.enter (print inside ++ (close_tag name ++ rest))
      ∙ ap (λ x. with_front (open_tag name) x) middle
      ∙ with_front-append (open_tag name) (print inside ++ (close_tag name ++ print after))
          (within depth s)

  -- The scan ends where the printed content does.
  scan-print :
      (x : Content) (rest : Bytes)
      → IsWellFormed x
      → within 0 (print x ++ (close_tag tag ++ rest)) ≡ some (print x)
  scan-print x rest h =
      pass-print x 0 (close_tag tag ++ rest) h
      ∙ ap (λ y. with_front (print x) y) (scan-close 0 rest)
      ∙ ap some (append-nil (print x))

-- Whatever stands before the first opening tag and after the closing one, extract_balanced returns exactly
-- the printed content of the element: all of it, with the elements of the same name that it holds.
pub extract_balanced-print :
    (tag haystack before : Bytes) (x : Content) (rest : Bytes)
    → IsName tag
    → IsWellFormed x
    → split_first (open_tag tag) haystack ≡ some (before, print x ++ (close_tag tag ++ rest))
    → extract_balanced haystack tag ≡ some (print x)
unfolding scan_after within
extract_balanced-print tag haystack before x rest n h e =
    extract_balanced-scan haystack tag ∙ rw e (scan-print tag n x rest h)
