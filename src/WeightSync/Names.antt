-- ===== src/WeightSync/Names.antt =====
-- The name of a weight file and the address in it determine each other.
use aerosuite.Base.{
  strip_prefix, strip_prefix-append, ◌≡◌, ap, ◌∙◌, sym, Bytes, codes, some, [], ◌∷◌, ◌++◌, bytes_eq,
  bytes_beq, bytes_beq_iff, arith, Bool-cases, Option-cases, inl, inr, beq_self, length-append, ℕ,
  ◌<◌, refl, false, length,
}
use aerosuite.WeightSync.{strip_suffix, ip_text}

strip_suffix-append : (q s r : Bytes) → strip_suffix q s ≡ some r → s ≡ r ++ q
unfolding strip_suffix
strip_suffix-append q [] r e = ground (arith, e, bytes_beq_iff q [])
strip_suffix-append q (c ∷ s) r e = elim (Bool-cases (bytes_beq q (c ∷ s))) [
  | inl h ↦ ground (arith, e, h, bytes_beq_iff q (c ∷ s))
  | inr h ↦ elim (Option-cases (strip_suffix q s)) [
    | inl g ↦ ground (arith, e, h, g)
    | inr (t, g) ↦ ground (arith, e, h, g, strip_suffix-append q s t g)
  ]
]

-- A weight file is named backend-<address>.weight.
ip_text-append :
    (name ip : Bytes) → ip_text name ≡ some ip → name ≡ codes "backend-" ++ (ip ++ codes ".weight")
unfolding ip_text
ip_text-append name ip e = elim (Option-cases (strip_prefix (codes "backend-") name)) [
  | inl g ↦ ground (arith, rw g at e)
  | inr (t, g) ↦
      strip_prefix-append (codes "backend-") name t g
      ∙ ap (λ x. codes "backend-" ++ x) (strip_suffix-append (codes ".weight") t ip (rw g at e))
]

pub ip_text-injective : (m n ip : Bytes) → ip_text m ≡ some ip → ip_text n ≡ some ip → m ≡ n
ip_text-injective m n ip e f = ip_text-append m ip e ∙ sym (ip_text-append n ip f)

length-ne : (q s : Bytes) → length q < length s → bytes_beq q s ≡ false
length-ne q s h = elim (Bool-cases (bytes_beq q s)) [
  | inl e ↦ absurd (omega (arith, ap (λ (t : Bytes). length t) ((bytes_beq_iff q s).0 e)))
  | inr e ↦ e
]

strip_suffix_self : (c : ℕ) (q : Bytes) → strip_suffix (c ∷ q) (c ∷ q) ≡ some []
unfolding strip_suffix
strip_suffix_self c q = rw (beq_self (c ∷ q)) refl

strip_suffix-of_append : (c : ℕ) (q s : Bytes) → strip_suffix (c ∷ q) (s ++ (c ∷ q)) ≡ some s
unfolding strip_suffix
strip_suffix-of_append c q [] = strip_suffix_self c q
strip_suffix-of_append c q (d ∷ s) =
    rw
      (
        length-ne (c ∷ q) (d ∷ (s ++ (c ∷ q))) (omega (arith, length-append s (c ∷ q))),
        strip_suffix-of_append c q s,
      )
      refl

-- The name that is made from an address is read back.
pub ip_text-name : (ip : Bytes) → ip_text (codes "backend-" ++ (ip ++ codes ".weight")) ≡ some ip
unfolding ip_text strip_prefix
ip_text-name ip = strip_suffix-of_append b'.' (codes "weight") ip
