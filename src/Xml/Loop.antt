-- ===== src/Xml/Loop.antt =====
-- aerocore/src/aws/mod.rs: the loop of extract_balanced against the scan, and its end.
use aerosuite.Base.{
  ℕ, zero, suc, ◌+◌, ◌-◌, ◌≡◌, refl, Bytes, Option, none, some, [], ◌∷◌, ◌++◌, nat_beq, length,
  strip_prefix, if◌then◌else◌, arith, Bool-cases, Option-cases, inl, inr, ◌<◌, sym, ap, ◌∙◌, ◌≢◌,
  length-append,
}
use mathlib.Core.List.{append_assoc}
use aerosuite.Xml.Find.{split_first-later, split_first-empty}
use aerosuite.Xml.{
  cons_before, split_first, balanced_loop, open_tag, close_tag, flat, extract_balanced,
}
use aerosuite.Xml.Scan.{
  then_char, scan, with_front, loop-char, loop-opening, loop-closing, scan-none, loop-unclosed,
  strip-tail, scan-closing, scan-opening, scan-char, with_front-append,
}

strip-shorter :
    (p s after : Bytes) → 0 < length p → strip_prefix p s ≡ some after → length after < length s
unfolding strip_prefix
strip-shorter [] s after h e = absurd (omega arith)
strip-shorter (p ∷ ps) [] after h e = ground (arith, e)
strip-shorter (p ∷ ps) (c ∷ s) after h e =
    let (same, rest) = strip-tail p ps c s after e in
    rw (rest, length-append ps after) (omega arith)

strip-less :
    (p s after : Bytes) (fuel : ℕ)
    → 0 < length p
    → strip_prefix p s ≡ some after
    → length s < suc fuel
    → length after < fuel
strip-less p s after fuel h e k = let less = strip-shorter p s after h e in omega arith

front-char :
    (p : Bytes) (c : ℕ) (x : Option Bytes)
    → with_front (p ++ c ∷ []) x ≡ with_front p (then_char c x)
front-char p c none = refl
front-char p c (some s) = rw (append_assoc p (c ∷ []) s) refl

-- On enough fuel the loop of extract_balanced finds what the scan finds.
module _ (opening closing : Bytes) (has_opening : 0 < length opening)
    (has_closing : 0 < length closing) where
  closing-cases :
      (depth : ℕ) (seen : Bytes) (found : Option (Option Bytes)) (rest : Option Bytes)
      → found ≡ some (with_front (seen ++ closing) rest)
      → (if nat_beq depth 0 then some (some (seen ++ [])) else found)
        ≡ some (with_front seen (if nat_beq depth 0 then some [] else with_front closing rest))
  closing-cases depth seen found rest e = elim (Bool-cases (nat_beq depth 0)) [
    | inl z ↦ rw z refl
    | inr z ↦ rw z (e ∙ ap some (sym (with_front-append seen closing rest)))
  ]

  pub loop-scan :
      (fuel depth : ℕ) (seen s : Bytes)
      → length s < fuel
      → balanced_loop fuel opening closing depth seen s
        ≡ some (with_front seen (scan opening closing zero depth s))
  loop-scan zero depth seen s h = absurd (omega arith)
  loop-scan (suc fuel) depth seen [] h =
      rw (loop-unclosed fuel opening closing depth seen [] (split_first-empty closing has_closing))
        (unfold scan in refl)
  loop-scan (suc fuel) depth seen (c ∷ s) h = elim (Option-cases (strip_prefix closing (c ∷ s))) [
    | inr (after, k) ↦
        let less : length after < fuel = strip-less closing (c ∷ s) after fuel has_closing k h in
        rw
          (
            loop-closing fuel opening closing depth seen (c ∷ s) after k,
            scan-closing opening closing depth c s after has_closing k,
          )
          (closing-cases depth seen _ _ (loop-scan fuel (depth - 1) (seen ++ closing) after less))
    | inl k ↦ elim (Option-cases (strip_prefix opening (c ∷ s))) [
      | inr (after, o) ↦ elim (Option-cases (split_first closing s)) [
        | inl unclosed ↦
            let e : split_first closing (c ∷ s) ≡ none =
              split_first-later closing c s k ∙ ap (λ x. cons_before c x) unclosed in
            rw
              (
                loop-unclosed fuel opening closing depth seen (c ∷ s) e,
                scan-none opening closing zero depth (c ∷ s) e,
              )
              refl
        | inr (p, q) ↦
            let less : length after < fuel =
              strip-less opening (c ∷ s) after fuel has_opening o h in
            rw
              (
                loop-opening fuel opening closing depth seen c s after p o k q,
                scan-opening opening closing depth c s after has_opening o k,
              )
              (loop-scan fuel (depth + 1) (seen ++ opening) after less
                ∙ ap some (sym (with_front-append seen opening _)))
      ]
      | inl o ↦
          rw
            (
              loop-char fuel opening closing depth seen c s o k,
              scan-char opening closing depth c s o k,
            )
            (loop-scan (suc fuel) depth (seen ++ c ∷ []) s (omega arith)
              ∙ ap some (front-char seen c _))
    ]
  ]

-- The content of the first element `tag`, by the scan.
unfoldable pub scan_after : Bytes → Option (Bytes × Bytes) → Option Bytes
unfolding scan
scan_after tag none = none
scan_after tag (some (before, content)) = scan (open_tag tag) (close_tag tag) zero 0 content

pub with_front-empty : (x : Option Bytes) → with_front [] x ≡ x
with_front-empty none = refl
with_front-empty (some s) = refl

loop-tags :
    (tag content : Bytes) (fuel : ℕ)
    → length content < fuel
    → balanced_loop fuel (open_tag tag) (close_tag tag) 0 [] content
      ≡ some (scan (open_tag tag) (close_tag tag) zero 0 content)
loop-tags tag content fuel h =
    loop-scan (open_tag tag) (close_tag tag) (omega arith) (omega arith) fuel 0 [] content h
    ∙ ap some (with_front-empty _)

-- On any text, extract_balanced gives what one pass from left to right gives: after the first opening tag,
-- the text up to the closing tag at which as many elements of the name have closed as have opened, and
-- nothing if there is no such tag.
pub extract_balanced-scan :
    (haystack tag : Bytes)
    → extract_balanced haystack tag ≡ scan_after tag (split_first (open_tag tag) haystack)
unfolding extract_balanced scan_after
extract_balanced-scan haystack tag = elim (Option-cases (split_first (open_tag tag) haystack)) [
  | inl e ↦ rw e refl
  | inr ((before, content), e) ↦
      rw e (ap flat (loop-tags tag content (suc (length content)) (omega arith)))
]

-- The loop of extract_balanced ends on every text: it makes at most one round for each character of the
-- content and one more, and more rounds give the same result.
pub extract_balanced-terminates :
    (tag content : Bytes) (rounds : ℕ)
    → length content < rounds
    → (balanced_loop rounds (open_tag tag) (close_tag tag) 0 [] content ≢ none)
      × (balanced_loop rounds (open_tag tag) (close_tag tag) 0 [] content
          ≡ balanced_loop (suc (length content)) (open_tag tag) (close_tag tag) 0 [] content)
extract_balanced-terminates tag content rounds h =
    let e = loop-tags tag content rounds h in
    (
      rw e (λ k. ground (arith, k)),
      e ∙ sym (loop-tags tag content (suc (length content)) (omega arith)),
    )
