-- ===== src/Base/Text.antt =====
-- Texts as lists of bytes (the program's texts are ASCII where it takes them apart).
use Prim.Native.Nat.{◌<◌, ℕ, zero, suc, ◌+◌, ◌-◌, ◌*◌, ◌/◌, ◌%◌, ◌^◌}
use Prim.Native.Char.{code}
use Prim.Native.String.{String}
use mathlib.Core.Path.{◌≡◌, refl, ◌∙◌}
use mathlib.Core.Logic.{◌↔◌, inl, inr}
use mathlib.Core.Bool.{Bool, true, false, ◌&&◌, ◌||◌}
use mathlib.Core.List.{List, [], ◌∷◌, ◌++◌}
use mathlib.Core.Option.{Option, none, some}
use native.Mathlib.Omega.{arith}
use aerosuite.Base.Int.{ℤ, pos, negsuc}
use aerosuite.Base.Tests.{PartialEq, nat_beq, nat_eq, Bool-cases, if◌then◌else◌, leb, ltb}

abbrev pub Bytes : Type 0
Bytes = List ℕ

abbrev pub codes : String → Bytes
codes String.[] = []
codes (String.◌∷◌ c s) = code c ∷ codes s

unfoldable pub bytes_beq : Bytes → Bytes → Bool
bytes_beq [] [] = true
bytes_beq [] (b ∷ bs) = false
bytes_beq (a ∷ as') [] = false
bytes_beq (a ∷ as') (b ∷ bs) = nat_beq a b && bytes_beq as' bs

bytes_beq_sound : (a b : Bytes) → bytes_beq a b ≡ true → a ≡ b
unfolding bytes_beq
bytes_beq_sound [] [] h = refl
bytes_beq_sound [] (b ∷ bs) h = cc
bytes_beq_sound (a ∷ r) [] h = cc
bytes_beq_sound (a ∷ r) (b ∷ bs) h = ground (arith, bytes_beq_sound r bs)

bytes_beq_refl : (a : Bytes) → bytes_beq a a ≡ true
unfolding bytes_beq
bytes_beq_refl [] = refl
bytes_beq_refl (a ∷ r) = ground (arith, bytes_beq_refl r)

pub bytes_beq_iff : (a b : Bytes) → (bytes_beq a b ≡ true) ↔ (a ≡ b)
bytes_beq_iff a b = (bytes_beq_sound a b, λ e. rw e (bytes_beq_refl b))

instance abbrev pub bytes_eq : PartialEq Bytes
bytes_eq = record { eq = bytes_beq; eq_iff = bytes_beq_iff }

-- char::is_whitespace on ASCII
unfoldable pub is_space : ℕ → Bool
is_space c = nat_beq c 32 || leb 9 c && leb c 13

-- str::trim_start
unfoldable pub trim_start : Bytes → Bytes
unfolding is_space
trim_start [] = []
trim_start (c ∷ s) = let rest = trim_start s in if is_space c then rest else c ∷ s

-- str::trim_end
unfoldable pub trim_end : Bytes → Bytes
unfolding is_space
trim_end [] = []
trim_end (c ∷ s) = elim (trim_end s) [ [] ↦ if is_space c then [] else c ∷ [] | d ∷ r ↦ c ∷ d ∷ r ]

-- str::trim
unfoldable pub trim : Bytes → Bytes
unfolding trim_start trim_end
trim s = trim_end (trim_start s)

is_digit : ℕ → Bool
is_digit c = leb b'0' c && leb c b'9'

-- The digits of a text after `acc`, `none` at another byte or past `bound`.
digits_value : ℕ → ℕ → Bytes → Option ℕ
digits_value bound acc [] = some acc
digits_value bound acc (c ∷ s) =
    let next : ℕ = acc * 10 + (c - b'0') in
    let rest = digits_value bound next s in if is_digit c && ltb next bound then rest else none

unsigned_digits : ℕ → Bytes → Option ℕ
unsigned_digits bound [] = none
unsigned_digits bound (c ∷ s) = digits_value bound 0 (c ∷ s)

-- str::parse::<uN>() with bound = 2 ^ N: an optional `+`, then decimal digits.
unfoldable pub parse_unsigned : ℕ → Bytes → Option ℕ
unfolding unsigned_digits digits_value is_digit
parse_unsigned bound [] = none
parse_unsigned bound (c ∷ s) =
    if nat_beq c b'+' then unsigned_digits bound s else unsigned_digits bound (c ∷ s)

abbrev negated : Option ℕ → Option ℤ
negated none = none
negated (some zero) = some (pos 0)
negated (some (suc n)) = some (negsuc n)

abbrev not_negated : Option ℕ → Option ℤ
not_negated none = none
not_negated (some n) = some (pos n)

-- str::parse::<i64>(): an optional sign, then decimal digits, from -2^63 to 2^63 - 1.
unfoldable pub parse_i64 : Bytes → Option ℤ
unfolding parse_unsigned unsigned_digits
parse_i64 [] = none
parse_i64 (c ∷ s) =
    if nat_beq c b'-'
    then negated (unsigned_digits (2 ^ 63 + 1) s)
    else not_negated (parse_unsigned (2 ^ 63) (c ∷ s))

-- `Ord` on texts: the order of the bytes.
unfoldable pub bytes_leb : Bytes → Bytes → Bool
bytes_leb [] b = true
bytes_leb (x ∷ a) [] = false
bytes_leb (x ∷ a) (y ∷ b) = ltb x y || nat_beq x y && bytes_leb a b

unfoldable pub decimal_digits : ℕ → ℕ → Bytes → Bytes
decimal_digits zero n out = out
decimal_digits (suc fuel) n out =
    let digit : ℕ = b'0' + n % 10 in
    let rest = decimal_digits fuel (n / 10) (digit ∷ out) in if ltb n 10 then digit ∷ out else rest

-- u32::to_string; a number has at most as many digits as its value plus one.
unfoldable pub to_decimal : ℕ → Bytes
unfolding decimal_digits
to_decimal n = decimal_digits (suc n) n []

digits_value-decimal_digits :
    (bound fuel n : ℕ) (out : Bytes)
    → n < fuel
    → n < bound
    → digits_value bound 0 (decimal_digits fuel n out) ≡ digits_value bound n out
unfolding digits_value decimal_digits is_digit
digits_value-decimal_digits bound zero n out h k = absurd (omega arith)
digits_value-decimal_digits bound (suc fuel) n out h k =
    ground (arith, digits_value-decimal_digits bound fuel (n / 10) ((b'0' + n % 10) ∷ out))

decimal_digits-head :
    (fuel n : ℕ) (out : Bytes)
    → n < fuel
    → (c : ℕ) × (s : Bytes) × (decimal_digits fuel n out ≡ c ∷ s) × (nat_beq c b'+' ≡ false)
unfolding decimal_digits
decimal_digits-head zero n out h = absurd (omega arith)
decimal_digits-head (suc fuel) n out h = elim (Bool-cases (ltb n 10)) [
  | inl e ↦ (b'0' + n % 10, out, rw e, ground arith)
  | inr e ↦
      let (c, s, p, q) =
        decimal_digits-head fuel (n / 10) ((b'0' + n % 10) ∷ out) (ground (arith, e)) in
      (c, s, rw e p, q)
]

parse_unsigned-digits :
    (bound c : ℕ) (t s : Bytes)
    → t ≡ c ∷ s
    → nat_beq c b'+' ≡ false
    → parse_unsigned bound t ≡ digits_value bound 0 t
unfolding parse_unsigned
parse_unsigned-digits bound c t s p q = rw p (rw q)

-- A number below the bound is read back from its decimal text.
pub parse_unsigned-to_decimal :
    (bound n : ℕ) → n < bound → parse_unsigned bound (to_decimal n) ≡ some n
unfolding to_decimal
parse_unsigned-to_decimal bound n h =
    let (c, s, p, q) = decimal_digits-head (suc n) n [] (omega arith) in
    let r : digits_value bound 0 (decimal_digits (suc n) n []) ≡ some n =
      unfold digits_value in digits_value-decimal_digits bound (suc n) n [] (omega arith) h in
    parse_unsigned-digits bound c (decimal_digits (suc n) n []) s p q ∙ r

-- str::strip_prefix
unfoldable pub strip_prefix : Bytes → Bytes → Option Bytes
strip_prefix [] s = some s
strip_prefix (p ∷ ps) [] = none
strip_prefix (p ∷ ps) (c ∷ s) = let rest = strip_prefix ps s in if nat_beq p c then rest else none

pub strip_prefix-append : (p s r : Bytes) → strip_prefix p s ≡ some r → s ≡ p ++ r
unfolding strip_prefix
strip_prefix-append [] s r e = ground (arith, e)
strip_prefix-append (c ∷ p) [] r e = ground (arith, e)
strip_prefix-append (c ∷ p) (d ∷ s) r e = ground (arith, e, strip_prefix-append p s r)
