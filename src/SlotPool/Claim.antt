-- ===== src/SlotPool/Claim.antt =====
-- LUA_CLAIM against a description that knows no database: which slot is handed out, and what every
-- slot looks like afterwards.
use aerosuite.Base.{
  ℕ, ◌+◌, ◌≤◌, ◌≡◌, refl, Bytes, Option, none, some, ◌==◌, bytes_eq, if◌then◌else◌, arith,
}
use aerosuite.Program.{available}
use aerosuite.Redis.{Redis}
use aerosuite.SlotPool.{lua_claim, swept, take}
use aerosuite.SlotPool.View.{view, view-swept, view-take, expire, held}

module _ (R : Redis) where
  open R use {Db, first, first-none, first-score, first-le}

  -- The claim finds no slot free after the sweep, or it takes one that has been free the longest.
  pub data Claims (now : ℕ) (owner : Bytes) (ttl_ms : ℕ) (d : Db) : Option Bytes × Db → Type 0 where
    exhausted :
        (d' : Db)
        → ((m : Bytes) → (expire now (view R m d)).free ≡ none)
        → ((m : Bytes) → view R m d' ≡ expire now (view R m d))
        → Claims now owner ttl_ms d (none, d')
    claimed :
        (slot : Bytes) (since : ℕ) (d' : Db)
        → (expire now (view R slot d)).free ≡ some since
        → ((m : Bytes) (t : ℕ) → (expire now (view R m d)).free ≡ some t → since ≤ t)
        → ((m : Bytes)
            → view R m d'
              ≡ (if slot == m then held owner (now + ttl_ms) else expire now (view R m d)))
        → Claims now owner ttl_ms d (some slot, d')

  free-swept :
      (now : ℕ) (m : Bytes) (d : Db)
      → (view R m (swept R now d)).free ≡ (expire now (view R m d)).free
  free-swept now m d = ground (arith, view-swept R now m d)

  take-Claims :
      (now : ℕ) (owner : Bytes) (ttl_ms : ℕ) (d : Db) (o : Option (Bytes × ℕ))
      → first available (swept R now d) ≡ o
      → Claims now owner ttl_ms d (take R now owner ttl_ms o (swept R now d))
  unfolding take
  take-Claims now owner ttl_ms d none e =
      exhausted (swept R now d)
        (λ m. ground (arith, free-swept now m d, first-none available m (swept R now d)))
        (λ m. view-swept R now m d)
  take-Claims now owner ttl_ms d (some (s, n)) e =
      claimed s n _ (ground (arith, free-swept now s d, first-score available (swept R now d) e))
        (λ m t h. first-le available (swept R now d) e m t (ground (arith, free-swept now m d)))
        (λ m.
          ground (arith, view-take R now owner ttl_ms s m n (swept R now d), view-swept R now m d))

  -- On any Redis, LUA_CLAIM at `now` first makes every slot whose lease has expired free since `now`, with
  -- no lease and no owner. Then, if no slot is free, it returns none and changes nothing else; otherwise
  -- it returns a slot that has been free the longest, leases it to the owner until now + ttl_ms, and
  -- changes no other slot.
  pub lua_claim-Claims :
      (now : ℕ) (owner : Bytes) (ttl_ms : ℕ) (d : Db)
      → Claims now owner ttl_ms d (lua_claim R now owner ttl_ms d)
  unfolding lua_claim
  lua_claim-Claims now owner ttl_ms d =
      take-Claims now owner ttl_ms d (first available (swept R now d)) refl
