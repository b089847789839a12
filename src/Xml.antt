-- ===== src/Xml.antt =====
-- aerocore/src/aws/mod.rs, the XML helpers. A position in a text is the text before it and the text from
-- it on: `str::find` gives the text before the match and the text after it.
pub mod Find
pub mod Scan
pub mod Tree
pub mod Elements
pub mod Loop
pub mod Printed
use aerosuite.Base.{
  ℕ, zero, suc, ◌+◌, ◌-◌, Bytes, codes, Bool, Option, none, some, List, [], ◌∷◌, ◌++◌, nat_beq, ltb,
  length, trim, strip_prefix, if◌then◌else◌, drop,
}

abbrev pub open_tag : Bytes → Bytes
open_tag tag = codes "<" ++ (tag ++ codes ">")

abbrev pub close_tag : Bytes → Bytes
close_tag tag = codes "</" ++ (tag ++ codes ">")

abbrev pub cons_before : ℕ → Option (Bytes × Bytes) → Option (Bytes × Bytes)
cons_before c none = none
cons_before c (some (before, after)) = some (c ∷ before, after)

abbrev pub here_or : Option Bytes → Option (Bytes × Bytes) → Option (Bytes × Bytes)
here_or (some after) later = some ([], after)
here_or none later = later

-- str::find: what stands before the first occurrence of the pattern, and what after it
unfoldable pub split_first : Bytes → Bytes → Option (Bytes × Bytes)
unfolding strip_prefix
split_first pattern [] = here_or (strip_prefix pattern []) none
split_first pattern (c ∷ s) =
    let later = split_first pattern s in
    here_or (strip_prefix pattern (c ∷ s)) (cons_before c later)

-- What one round of the loop of extract_balanced finds: the next opening tag before the next closing
-- one, the next closing tag, or neither.
pub data Next : Type 0 where
  opens : Bytes → Bytes → Next
  closes : Bytes → Bytes → Next
  stops : Next

abbrev pub next_of : Option (Bytes × Bytes) → Option (Bytes × Bytes) → Next
next_of none none = stops
next_of (some o) none = stops
next_of none (some (before, after)) = closes before after
next_of (some (before, after)) (some (before', after')) =
    if ltb (length before) (length before') then opens before after else closes before' after'

-- One round: `again` is the loop from the new depth, text seen and position on. `depth` is one less than
-- in the source, and `seen` the text from the start of the content to the position.
unfoldable pub balanced_round :
    (ℕ → Bytes → Bytes → Option (Option Bytes))
    → Bytes
    → Bytes
    → ℕ
    → Bytes
    → Next
    → Option (Option Bytes)
balanced_round again opening closing depth seen (opens before after) =
    again (depth + 1) (seen ++ (before ++ opening)) after
balanced_round again opening closing depth seen (closes before after) =
    let shallower = again (depth - 1) (seen ++ (before ++ closing)) after in
    if nat_beq depth 0 then some (some (seen ++ before)) else shallower
balanced_round again opening closing depth seen stops = some none

-- The loop, on fuel; `none` says that the fuel ran out.
unfoldable pub balanced_loop : ℕ → Bytes → Bytes → ℕ → Bytes → Bytes → Option (Option Bytes)
unfolding split_first balanced_round
balanced_loop zero opening closing depth seen s = none
balanced_loop (suc fuel) opening closing depth seen s =
    balanced_round (λ d t r. balanced_loop fuel opening closing d t r) opening closing depth seen
      (next_of (split_first opening s) (split_first closing s))

abbrev pub flat : Option (Option Bytes) → Option Bytes
flat none = none
flat (some o) = o

abbrev pub balanced_after : Bytes → Option (Bytes × Bytes) → Option Bytes
balanced_after tag none = none
balanced_after tag (some (before, content)) =
    flat (balanced_loop (suc (length content)) (open_tag tag) (close_tag tag) 0 [] content)

unfoldable pub extract_balanced : Bytes → Bytes → Option Bytes
unfolding balanced_loop split_first
extract_balanced haystack tag = balanced_after tag (split_first (open_tag tag) haystack)

abbrev pub trimmed_before : Option (Bytes × Bytes) → Option Bytes
trimmed_before none = none
trimmed_before (some (before, after)) = some (trim before)

abbrev pub scalar_after : Bytes → Option (Bytes × Bytes) → Option Bytes
scalar_after tag none = none
scalar_after tag (some (before, content)) = trimmed_before (split_first (close_tag tag) content)

unfoldable pub extract_scalar : Bytes → Bytes → Option Bytes
unfolding split_first
extract_scalar haystack tag = scalar_after tag (split_first (open_tag tag) haystack)

-- Where a caller goes on after an element: behind its opening tag, its content and its closing tag.
unfoldable pub after_element : Bytes → Bytes → Bytes → Bytes
unfolding split_first
after_element tag inner haystack = elim (split_first (open_tag tag) haystack) [
  | none ↦ []
  | some (before, after) ↦
      drop (length before + length (open_tag tag) + length inner + length (close_tag tag)) haystack
]

abbrev pub then_one : Bytes → Option (List Bytes) → Option (List Bytes)
then_one inner none = none
then_one inner (some rest) = some (inner ∷ rest)

-- The loops `while let Some(inner) = extract_balanced(remaining, tag)`: the contents they see, on fuel.
unfoldable pub elements : ℕ → Bytes → Bytes → Option (List Bytes)
unfolding extract_balanced after_element
elements zero tag remaining = none
elements (suc fuel) tag remaining = elim (extract_balanced remaining tag) [
  | none ↦ some []
  | some inner ↦ then_one inner (elements fuel tag (after_element tag inner remaining))
]

-- The rest of extract_all_scalars after an opening tag: `again` is its loop.
abbrev scalars_after :
    (Bytes → Option (List Bytes)) → Bytes → Option (Bytes × Bytes) → Option (List Bytes)
scalars_after again tag none = some []
scalars_after again tag (some (before, content)) = elim (split_first (close_tag tag) content) [
  | none ↦ some []
  | some (value, after) ↦ then_one (trim value) (again after)
]

unfoldable pub scalars_loop : ℕ → Bytes → Bytes → Option (List Bytes)
unfolding split_first
scalars_loop zero tag s = none
scalars_loop (suc fuel) tag s =
    scalars_after (λ r. scalars_loop fuel tag r) tag (split_first (open_tag tag) s)

abbrev pub listed : Option (List Bytes) → List Bytes
listed none = []
listed (some xs) = xs

unfoldable pub extract_all_scalars : Bytes → Bytes → List Bytes
unfolding scalars_loop
extract_all_scalars haystack tag = listed (scalars_loop (suc (length haystack)) tag haystack)
