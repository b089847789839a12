-- ===== src/SlotPool/Init.antt =====
-- LUA_INIT: which slots it adds.
use aerosuite.Base.{
  bytes_beq, bytes_beq_iff, ap, ℕ, zero, suc, ◌+◌, ◌-◌, ◌≡◌, refl, Bytes, Bool, false, ◌||◌, some,
  ◌==◌, bytes_eq, is_some, to_decimal, if◌then◌else◌, arith, Bool-cases, inl, inr,
}
use aerosuite.Program.{available, leases}
use aerosuite.Redis.{Redis}
use aerosuite.SlotPool.{key_owner, lua_init, lua_init_loop, lua_init_slot}
use aerosuite.SlotPool.View.{SlotView, view}

-- A slot that is neither free nor leased becomes free since ever.
abbrev pub admit : SlotView → SlotView
admit v = if is_some v.lease || is_some v.free then v else record v { free = some 0 }

-- The texts of the numbers slot, slot + 1, ... of a loop.
unfoldable pub in_slots : ℕ → ℕ → Bytes → Bool
in_slots zero slot m = false
in_slots (suc rounds) slot m = to_decimal slot == m || in_slots rounds (slot + 1) m

admit_idem : (v : SlotView) → admit (admit v) ≡ admit v
admit_idem v = ground arith

module _ (R : Redis) where
  open R use {Db, score, get-add, score-add}

  view-init_slot :
      (slot : ℕ) (m : Bytes) (d : Db)
      → view R m (lua_init_slot R slot d).1
        ≡ (if to_decimal slot == m then admit (view R m d) else view R m d)
  unfolding lua_init_slot
  view-init_slot slot m d =
      let s = to_decimal slot in
      elim (Bool-cases (bytes_beq s m)) [
        | inl h ↦
            let e = (bytes_beq_iff s m).0 h in
            ground (
              arith,
              h,
              ap (λ x. score available x d) e,
              ap (λ x. score leases x d) e,
              get-add (key_owner m) s available 0 d,
              score-add available available m s 0 d,
              score-add leases available m s 0 d,
            )
        | inr h ↦ ground (
          arith,
          h,
          get-add (key_owner m) s available 0 d,
          score-add available available m s 0 d,
          score-add leases available m s 0 d,
        )
      ]

  view-init_loop :
      (rounds slot : ℕ) (m : Bytes) (d : Db)
      → view R m (lua_init_loop R rounds slot d).1
        ≡ (if in_slots rounds slot m then admit (view R m d) else view R m d)
  unfolding lua_init_loop in_slots
  view-init_loop zero slot m d = refl
  view-init_loop (suc rounds) slot m d = ground (
    arith,
    view-init_loop rounds (slot + 1) m (lua_init_slot R slot d).1,
    view-init_slot slot m d,
    admit_idem (view R m d),
  )

  -- LUA_INIT makes a slot of its range that is neither free nor leased free since 0, and leaves every other
  -- slot of its range and every member outside of it as it is.
  pub view-init :
      (min max : ℕ) (m : Bytes) (d : Db)
      → view R m (lua_init R min max d).1
        ≡ (if in_slots (max + 1 - min) min m then admit (view R m d) else view R m d)
  unfolding lua_init
  view-init min max m d = view-init_loop (max + 1 - min) min m d
