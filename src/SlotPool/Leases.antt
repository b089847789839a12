-- ===== src/SlotPool/Leases.antt =====
-- What a lease is worth to its holder, and that no slot gets lost.
use aerosuite.Base.{
  ℕ, ◌+◌, ◌<◌, ◌≡◌, ap, Bytes, Bool, true, false, Option, some, bytes_eq, bytes_beq, bytes_beq_iff,
  arith, Bool-cases, inl, inr,
}
use aerosuite.Program.{leases, Script, script_init, script_claim, script_renew, script_release}
use aerosuite.Redis.{Redis}
use aerosuite.SlotPool.{lua_claim, lua_renew, lua_release}
use aerosuite.SlotPool.View.{view, view-renew, view-free_slot, sound}
use aerosuite.SlotPool.Claim.{Claims, lua_claim-Claims, exhausted, claimed}
use aerosuite.SlotPool.Server.{eval_script}
use aerosuite.SlotPool.Invariant.{IsPool, known, Claims-known}

module _ (R : Redis) where
  open R use {Db, get, score}

  Claims-keeps_live :
      (now : ℕ) (owner : Bytes) (ttl_ms : ℕ) (d : Db) {r : Option Bytes × Db}
      → Claims R now owner ttl_ms d r
      → (s : Bytes) (expiry : ℕ) → sound (view R s d) ≡ true
      → score leases s d ≡ some expiry
      → now < expiry
      → view R s r.1 ≡ view R s d
  Claims-keeps_live now owner ttl_ms d (exhausted d' none_free after) s expiry h e l =
      ground (arith, after s)
  Claims-keeps_live now owner ttl_ms d (claimed t since d' was_free least after) s expiry h e l =
      elim (Bool-cases (bytes_beq t s)) [
        | inl q ↦ ground (arith, q, was_free, ap (λ x. view R x d) ((bytes_beq_iff t s).0 q))
        | inr q ↦ ground (arith, q, after s)
      ]

  -- In a pool, a claim by anyone leaves a slot alone whose lease has not expired at the claim's time: its
  -- lease, its owner and its place outside the free set stay as they are.
  pub lua_claim-keeps_live :
      (d : Db)
      → IsPool R d
      → (now : ℕ) (owner : Bytes) (ttl_ms : ℕ) (s : Bytes) (expiry : ℕ)
      → score leases s d ≡ some expiry
      → now < expiry
      → view R s (lua_claim R now owner ttl_ms d).1 ≡ view R s d
  lua_claim-keeps_live d p now owner ttl_ms s expiry e l =
      Claims-keeps_live now owner ttl_ms d (lua_claim-Claims R now owner ttl_ms d) s expiry (p.at s)
        e l

  renew-known :
      (slot owner : Bytes) (now ttl_ms : ℕ) (d : Db) (m : Bytes)
      → sound (view R slot d) ≡ true
      → known R (view R m (lua_renew R slot owner now ttl_ms d).1) ≡ known R (view R m d)
  unfolding lua_renew
  renew-known slot owner now ttl_ms d m h = elim (Bool-cases (bytes_beq slot m)) [
    | inl e ↦ ground (
      arith,
      e,
      ap (λ x. view R x d) ((bytes_beq_iff slot m).0 e),
      view-renew R (now + ttl_ms) slot m d,
    )
    | inr e ↦ ground (arith, e, view-renew R (now + ttl_ms) slot m d)
  ]

  release-known :
      (slot owner : Bytes) (now : ℕ) (d : Db) (m : Bytes)
      → sound (view R slot d) ≡ true
      → known R (view R m (lua_release R slot owner now d).1) ≡ known R (view R m d)
  unfolding lua_release
  release-known slot owner now d m h = elim (Bool-cases (bytes_beq slot m)) [
    | inl e ↦
        ground (
          arith,
          e,
          ap (λ x. view R x d) ((bytes_beq_iff slot m).0 e),
          view-free_slot R now slot m d,
        )
    | inr e ↦ ground (arith, e, view-free_slot R now slot m d)
  ]

  abbrev pub keeps_slots : Script → Bool
  keeps_slots (script_init min max) = false
  keeps_slots (script_claim now owner ttl_ms) = true
  keeps_slots (script_renew slot owner now ttl_ms) = true
  keeps_slots (script_release slot owner now) = true

  -- In a pool, every script but `init` loses no slot and makes none up: a slot is free or leased afterwards
  -- exactly when it was before.
  pub eval_script-known :
      (d : Db)
      → IsPool R d
      → (s : Script) → keeps_slots s ≡ true
      → (m : Bytes) → known R (view R m (eval_script R s d).1) ≡ known R (view R m d)
  unfolding eval_script
  eval_script-known d p (script_init min max) k m = cc
  eval_script-known d p (script_claim now owner ttl_ms) k m =
      Claims-known R now owner ttl_ms d (lua_claim-Claims R now owner ttl_ms d) m
  eval_script-known d p (script_renew slot owner now ttl_ms) k m =
      renew-known slot owner now ttl_ms d m (p.at slot)
  eval_script-known d p (script_release slot owner now) k m =
      release-known slot owner now d m (p.at slot)
