-- ===== src/SlotPool/Invariant.antt =====
-- The pool invariant, kept by every script, and what a lease is worth to its holder.
use aerosuite.Base.{
  ℕ, ◌+◌, ◌≡◌, Bytes, Bool, true, ◌||◌, Option, List, [], ◌∷◌, bytes_eq, bytes_beq, bytes_beq_iff,
  is_some, arith, Bool-cases, inl, inr, ap,
}
use aerosuite.Program.{Script, script_init, script_claim, script_renew, script_release}
use aerosuite.Redis.{Redis}
use aerosuite.SlotPool.{key_owner, lua_init, lua_renew, lua_release}
use aerosuite.SlotPool.View.{SlotView, view, view-renew, view-free_slot, sound}
use aerosuite.SlotPool.Init.{view-init}
use aerosuite.SlotPool.Claim.{Claims, lua_claim-Claims, exhausted, claimed}
use aerosuite.SlotPool.Server.{eval_script}

module _ (R : Redis) where
  open R use {Db, get}

  -- Each slot is free, or leased with an owner, or unknown.
  pub record IsPool (d : Db) : Type 0 where
    pub at : (m : Bytes) → sound (view R m d) ≡ true

  pub Claims-sound :
      (now : ℕ) (owner : Bytes) (ttl_ms : ℕ) (d : Db) {r : Option Bytes × Db}
      → Claims R now owner ttl_ms d r
      → (m : Bytes) → sound (view R m d) ≡ true
      → sound (view R m r.1) ≡ true
  Claims-sound now owner ttl_ms d (exhausted d' none_free after) m h = ground (arith, after m)
  Claims-sound now owner ttl_ms d (claimed s n d' was_free least after) m h =
      ground (arith, after m)

  lua_init-sound :
      (min max : ℕ) (d : Db) (m : Bytes)
      → sound (view R m d) ≡ true
      → sound (view R m (lua_init R min max d).1) ≡ true
  lua_init-sound min max d m h = ground (arith, view-init R min max m d)

  pub lua_renew-sound :
      (slot owner : Bytes) (now ttl_ms : ℕ) (d : Db) (m : Bytes)
      → sound (view R m d) ≡ true
      → sound (view R m (lua_renew R slot owner now ttl_ms d).1) ≡ true
  unfolding lua_renew
  lua_renew-sound slot owner now ttl_ms d m h = elim (Bool-cases (bytes_beq slot m)) [
    | inl e ↦ ground (
      arith,
      e,
      ap (λ x. get (key_owner x) d) ((bytes_beq_iff slot m).0 e),
      view-renew R (now + ttl_ms) slot m d,
    )
    | inr e ↦ ground (arith, e, view-renew R (now + ttl_ms) slot m d)
  ]

  lua_release-sound :
      (slot owner : Bytes) (now : ℕ) (d : Db) (m : Bytes)
      → sound (view R m d) ≡ true
      → sound (view R m (lua_release R slot owner now d).1) ≡ true
  unfolding lua_release
  lua_release-sound slot owner now d m h = ground (arith, view-free_slot R now slot m d)

  pub script-sound :
      (s : Script) (d : Db) (m : Bytes)
      → sound (view R m d) ≡ true
      → sound (view R m (eval_script R s d).1) ≡ true
  unfolding eval_script
  script-sound (script_init min max) d m h = lua_init-sound min max d m h
  script-sound (script_claim now owner ttl_ms) d m h =
      Claims-sound now owner ttl_ms d (lua_claim-Claims R now owner ttl_ms d) m h
  script-sound (script_renew slot owner now ttl_ms) d m h =
      lua_renew-sound slot owner now ttl_ms d m h
  script-sound (script_release slot owner now) d m h = lua_release-sound slot owner now d m h

  -- A history of scripts.
  unfoldable pub run_scripts : List Script → Db → Db
  run_scripts [] d = d
  run_scripts (s ∷ history) d = run_scripts history (eval_script R s d).1

  -- From a pool in which every slot is leased with an owner and not free, or neither leased nor with an
  -- owner, any history of the four scripts leads to such a pool again.
  pub run_scripts-IsPool :
      (history : List Script) (d : Db) → IsPool d → IsPool (run_scripts history d)
  unfolding run_scripts
  run_scripts-IsPool [] d h = h
  run_scripts-IsPool (s ∷ history) d h =
      run_scripts-IsPool history (eval_script R s d).1
        (record { at = λ m. script-sound s d m (h.at m) })

  abbrev pub known : SlotView → Bool
  known v = is_some v.free || is_some v.lease

  pub Claims-known :
      (now : ℕ) (owner : Bytes) (ttl_ms : ℕ) (d : Db) {r : Option Bytes × Db}
      → Claims R now owner ttl_ms d r
      → (m : Bytes) → known (view R m r.1) ≡ known (view R m d)
  Claims-known now owner ttl_ms d (exhausted d' none_free after) m = ground (arith, after m)
  Claims-known now owner ttl_ms d (claimed s n d' was_free least after) m =
      elim (Bool-cases (bytes_beq s m)) [
        | inl e ↦
            ground (arith, e, after m, was_free, ap (λ x. view R x d) ((bytes_beq_iff s m).0 e))
        | inr e ↦ ground (arith, e, after m)
      ]
