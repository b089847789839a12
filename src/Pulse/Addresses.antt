-- ===== src/Pulse/Addresses.antt =====
-- core::net::Ipv4Addr in the programs: an address is read back from its text.
use aerosuite.Base.{
  ℕ, All-mono, All-append, IsDigit, to_decimal-IsDigit, to_decimal, u32_mod, decimal_digits,
  parse_unsigned, zero, suc, ◌/◌, ◌%◌, ◌^◌, ◌≤◌, ◌<◌, ◌≡◌, refl, ap, Bytes, codes, Bool, true,
  false, ◌&&◌, Option, none, some, [], ◌∷◌, ◌++◌, nat_beq, arith, Bool-cases, inl, inr, All,
}
use aerosuite.Vrrp.{ipv4_text}
use aerosuite.WeightSync.Startup.{parse_ipv4, split_dots, octet}

abbrev pub IsText : ℕ → Type 0
IsText c = (46 ≤ c) × (c < 58)

pub ipv4_text-IsText : (ip : ℕ) → All IsText (ipv4_text ip)
unfolding ipv4_text
ipv4_text-IsText ip =
    let digits : (n : ℕ) → All IsText (to_decimal n) = λ n.
      All-mono IsDigit IsText (to_decimal n) (λ c h. (omega arith, omega arith))
        (to_decimal-IsDigit n) in
    let dot : (s : Bytes) → All IsText s → All IsText (codes "." ++ s) =
      λ s h. ((omega arith, omega arith), h) in
    let join : (n : ℕ) (s : Bytes) → All IsText s → All IsText (to_decimal n ++ (codes "." ++ s)) =
      λ n s h. All-append IsText (to_decimal n) (codes "." ++ s) (digits n) (dot s h) in
    join _ _ (join _ _ (join _ _ (digits (ip % 256))))

split_dots-digits : (d : Bytes) → All IsDigit d → split_dots d ≡ d ∷ []
unfolding split_dots
split_dots-digits [] h = refl
split_dots-digits (c ∷ d) h = ground (arith, split_dots-digits d h.1, h.0.0)

split_dots-dot :
    (d s : Bytes) → All IsDigit d → split_dots (d ++ (codes "." ++ s)) ≡ d ∷ split_dots s
unfolding split_dots
split_dots-dot [] s h = refl
split_dots-dot (c ∷ d) s h = ground (arith, split_dots-dot d s h.1, h.0.0)

reads_back : ℕ → Option ℕ → Bool
reads_back n none = false
reads_back n (some m) = nat_beq m n

reads_back-some : (n : ℕ) (o : Option ℕ) → reads_back n o ≡ true → o ≡ some n
unfolding reads_back
reads_back-some n none h = cc
reads_back-some n (some m) h = ground arith

all_read : ℕ → Bool
all_read zero = true
all_read (suc n) = reads_back n (octet (to_decimal n)) && all_read n

all_read-octet : (k n : ℕ) → all_read k ≡ true → n < k → octet (to_decimal n) ≡ some n
unfolding all_read
all_read-octet zero n h l = absurd (omega arith)
all_read-octet (suc k) n h l = elim (Bool-cases (nat_beq n k)) [
  | inl e ↦ reads_back-some n (octet (to_decimal n)) (ground (arith, e, h))
  | inr e ↦ all_read-octet k n (ground (arith, h)) (ground (arith, e, l))
]

octet_table : all_read 256 ≡ true
unfolding all_read reads_back octet to_decimal decimal_digits parse_unsigned
octet_table = refl

octet-to_decimal : (n : ℕ) → n < 256 → octet (to_decimal n) ≡ some n
octet-to_decimal n h = all_read-octet 256 n octet_table h

pub parse_ipv4-ipv4_text : (ip : ℕ) → ip < u32_mod → parse_ipv4 (ipv4_text ip) ≡ some ip
unfolding parse_ipv4 ipv4_text
parse_ipv4-ipv4_text ip h =
    let a = ip / 2 ^ 24 in
    let b = ip / 2 ^ 16 % 256 in
    let c = ip / 2 ^ 8 % 256 in
    let d = ip % 256 in
    rw
      (
        split_dots-dot (to_decimal a) _ (to_decimal-IsDigit a),
        split_dots-dot (to_decimal b) _ (to_decimal-IsDigit b),
        split_dots-dot (to_decimal c) _ (to_decimal-IsDigit c),
        split_dots-digits (to_decimal d) (to_decimal-IsDigit d),
        octet-to_decimal a (omega arith),
        octet-to_decimal b (omega arith),
        octet-to_decimal c (omega arith),
        octet-to_decimal d (omega arith),
      )
      (ap (λ (n : ℕ). some n) (omega arith))
