-- ===== src/Base/Encoding.antt =====
-- Texts as the bytes of UTF-8, and their lines.
use Prim.Native.Nat.{ℕ, ◌+◌, ◌/◌, ◌%◌, ◌^◌}
use Prim.Native.String.{String}
use mathlib.Core.Bool.{Bool, false, ◌&&◌}
use mathlib.Core.List.{List, [], ◌∷◌, ◌++◌}
use aerosuite.Base.Tests.{nat_beq, ltb, if◌then◌else◌}
use aerosuite.Base.Text.{Bytes, codes}

-- The last six bits of a code point in a continuation byte.
abbrev continuation : ℕ → ℕ
continuation c = 128 + c % 64

utf8_char : ℕ → Bytes
utf8_char c =
    if ltb c 128
    then c ∷ []
    else if ltb c (2 ^ 11)
    then (192 + c / 64) ∷ continuation c ∷ []
    else if ltb c (2 ^ 16)
    then (224 + c / 2 ^ 12) ∷ continuation (c / 64) ∷ continuation c ∷ []
    else (240 + c / 2 ^ 18)
      ∷ continuation (c / 2 ^ 12)
      ∷ continuation (c / 64)
      ∷ continuation c
      ∷ []

utf8 : List ℕ → Bytes
unfolding utf8_char
utf8 [] = []
utf8 (c ∷ cs) = utf8_char c ++ utf8 cs

-- The bytes of a text that is not ASCII.
unfoldable pub text : String → Bytes
unfolding utf8
text s = utf8 (codes s)

unfoldable pub concat : List Bytes → Bytes
concat [] = []
concat (part ∷ parts) = part ++ concat parts

abbrev starts_line : Bytes → Bool
starts_line [] = false
starts_line (c ∷ s) = nat_beq c 10

abbrev onto_line : ℕ → List Bytes → List Bytes
onto_line c [] = (c ∷ []) ∷ []
onto_line c (l ∷ ls) = (c ∷ l) ∷ ls

-- str::lines: a line ends at a line feed, with the carriage return before it.
unfoldable pub text_lines : Bytes → List Bytes
text_lines [] = []
text_lines (c ∷ s) =
    let rest = text_lines s in
    if nat_beq c 10
    then [] ∷ rest
    else if nat_beq c 13 && starts_line s
    then rest
    else onto_line c rest
