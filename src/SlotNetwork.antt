-- ===== src/SlotNetwork.antt =====
-- aerocore/src/slot_network.rs: slot numbers and IPv4 addresses. An address is its u32 value; sums of
-- u32 wrap, as in the release profile.
pub mod Imds
use aerosuite.Base.{
  ℕ, ◌+◌, ◌-◌, ◌%◌, ◌<◌, ◌≡◌, ◌↔◌, Option, none, some, leb, u32_mod, if◌then◌else◌, arith,
}

pub record SlotNetwork : Type 0 where
  pub base : ℕ
  pub offset : ℕ
  pub prefix_len : ℕ

unfoldable pub ip_for_slot : SlotNetwork → ℕ → ℕ
ip_for_slot n slot = ((n.base + n.offset) % u32_mod + slot) % u32_mod

-- u32::checked_sub
unfoldable pub checked_sub : ℕ → ℕ → Option ℕ
checked_sub a b = if leb b a then some (a - b) else none

unfoldable pub slot_for_ip : SlotNetwork → ℕ → Option ℕ
unfolding checked_sub
slot_for_ip n ip = checked_sub ip ((n.base + n.offset) % u32_mod)

-- Where base + offset is a u32, the slot of a u32 address is `slot` exactly when `slot` has that address
-- and the sum base + offset + slot is a u32.
pub slot_for_ip_iff :
    (n : SlotNetwork) (slot ip : ℕ)
    → n.base + n.offset < u32_mod
    → ip < u32_mod
    → (slot_for_ip n ip ≡ some slot)
      ↔ ((ip_for_slot n slot ≡ ip) × (n.base + n.offset + slot < u32_mod))
unfolding slot_for_ip ip_for_slot
slot_for_ip_iff n slot ip h k = (λ e. ground arith, λ (e, l). ground arith)

pub ip_for_slot-lt : (n : SlotNetwork) (slot : ℕ) → ip_for_slot n slot < u32_mod
unfolding ip_for_slot
ip_for_slot-lt n slot = omega arith

-- Distinct u32 slots have distinct addresses, also where the sum wraps.
pub ip_for_slot_injective :
    (n : SlotNetwork) (s t : ℕ)
    → s < u32_mod
    → t < u32_mod
    → ip_for_slot n s ≡ ip_for_slot n t
    → s ≡ t
unfolding ip_for_slot
ip_for_slot_injective n s t h k e = omega arith
