-- ===== src/Collect/Ipvs/Hex.antt =====
-- The addresses of /proc/net/ip_vs: eight upper-case hexadecimal digits.
use aerosuite.Base.{
  ℕ, u32_mod, ◌+◌, ◌-◌, ◌*◌, ◌/◌, ◌%◌, ◌^◌, ◌<◌, ◌≡◌, ap, ◌∙◌, Bytes, false, some, [], ◌∷◌, nat_beq,
  ltb, if◌then◌else◌, arith,
}
use aerosuite.Collect.Ipvs.{hex_digit, hex_value, parse_hex_ip, within_u32, next_value}

-- The kernel's `%08X`, one digit at a time.
abbrev pub hex_letter : ℕ → ℕ
hex_letter d = if ltb d 10 then b'0' + d else b'A' + (d - 10)

unfoldable pub hex_text : ℕ → Bytes
hex_text n =
    hex_letter (n / 16 ^ 7)
    ∷ hex_letter (n / 16 ^ 6 % 16)
    ∷ hex_letter (n / 16 ^ 5 % 16)
    ∷ hex_letter (n / 16 ^ 4 % 16)
    ∷ hex_letter (n / 16 ^ 3 % 16)
    ∷ hex_letter (n / 16 ^ 2 % 16)
    ∷ hex_letter (n / 16 % 16)
    ∷ hex_letter (n % 16)
    ∷ []

hex_digit-letter : (d : ℕ) → d < 16 → hex_digit (hex_letter d) ≡ some d
unfolding hex_digit
hex_digit-letter d h = ground (arith, h)

hex_value-letter :
    (acc n d : ℕ) (s : Bytes)
    → d < 16
    → n ≡ acc * 16 + d
    → n < u32_mod
    → hex_value (some acc) (hex_letter d ∷ s) ≡ hex_value (some n) s
unfolding hex_value
hex_value-letter acc n d s h e k =
    let fits : within_u32 (acc * 16 + d) ≡ some n = ground (arith, e, k) in
    ap (λ o. hex_value (next_value acc o) s) (hex_digit-letter d h) ∙ ap (λ o. hex_value o s) fits

not_plus : (d : ℕ) → d < 16 → nat_beq (hex_letter d) b'+' ≡ false
not_plus d h = ground (arith, h)

-- An address that is printed as eight digits is read back.
pub parse_hex_ip-text : (n : ℕ) → n < u32_mod → parse_hex_ip (hex_text n) ≡ some n
unfolding parse_hex_ip hex_text
parse_hex_ip-text n h =
    let s0 : Bytes = hex_letter (n % 16) ∷ [] in
    let s1 : Bytes = hex_letter (n / 16 % 16) ∷ s0 in
    let s2 : Bytes = hex_letter (n / 16 ^ 2 % 16) ∷ s1 in
    let s3 : Bytes = hex_letter (n / 16 ^ 3 % 16) ∷ s2 in
    let s4 : Bytes = hex_letter (n / 16 ^ 4 % 16) ∷ s3 in
    let s5 : Bytes = hex_letter (n / 16 ^ 5 % 16) ∷ s4 in
    let s6 : Bytes = hex_letter (n / 16 ^ 6 % 16) ∷ s5 in
    rw (not_plus (n / 16 ^ 7) (omega arith)) (
      hex_value-letter (0) (n / 16 ^ 7) (n / 16 ^ 7) s6 (omega arith) (omega arith) (omega arith)
      ∙ hex_value-letter (n / 16 ^ 7) (n / 16 ^ 6) (n / 16 ^ 6 % 16) s5 (omega arith) (omega arith)
          (omega arith)
      ∙ hex_value-letter (n / 16 ^ 6) (n / 16 ^ 5) (n / 16 ^ 5 % 16) s4 (omega arith) (omega arith)
          (omega arith)
      ∙ hex_value-letter (n / 16 ^ 5) (n / 16 ^ 4) (n / 16 ^ 4 % 16) s3 (omega arith) (omega arith)
          (omega arith)
      ∙ hex_value-letter (n / 16 ^ 4) (n / 16 ^ 3) (n / 16 ^ 3 % 16) s2 (omega arith) (omega arith)
          (omega arith)
      ∙ hex_value-letter (n / 16 ^ 3) (n / 16 ^ 2) (n / 16 ^ 2 % 16) s1 (omega arith) (omega arith)
          (omega arith)
      ∙ hex_value-letter (n / 16 ^ 2) (n / 16) (n / 16 % 16) s0 (omega arith) (omega arith)
          (omega arith)
      ∙ hex_value-letter (n / 16) n (n % 16) [] (omega arith) (omega arith) h)
