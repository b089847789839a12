-- ===== src/SlotPool.antt =====
-- The slot pool in Redis: aerocore/src/redis_pool/mod.rs and the scripts of aeroslot/src/lua.rs.
-- A Lua script runs atomically, so it is a function on the database.
pub mod Server
pub mod View
pub mod Init
pub mod Claim
pub mod Invariant
pub mod Leases
pub mod Publish
pub mod Commands
pub mod Equivalence
pub mod Retry
pub mod Race
pub mod Heartbeat
pub mod Status
pub mod Client
use aerosuite.Base.{
  ℕ, zero, suc, ◌+◌, ◌-◌, ◌≡◌, Bytes, codes, Bool, true, false, Option, none, some, List, [], ◌∷◌,
  ◌++◌, ◌==◌, bytes_eq, is_some, to_decimal, if◌then◌else◌,
}
use aerosuite.Program.{available, leases}
use aerosuite.Redis.{Redis}

-- KEY_AVAILABLE, KEY_LEASES: the names of the two sorted sets.
abbrev pub key_available : Bytes
key_available = codes "slots:available"

abbrev pub key_leases : Bytes
key_leases = codes "slots:leases"

unfoldable pub key_owner : Bytes → Bytes
key_owner slot = codes "slot:owner:" ++ slot

-- `GET key ~= owner` in Lua: a missing key is `false`, which differs from every string.
unfoldable pub holds_text : Option Bytes → Bytes → Bool
holds_text none owner = false
holds_text (some o) owner = o == owner

module _ (R : Redis) where
  open R use {Db, get, set, del, score, add, rem, up_to, first}

  -- ZADD NX: the number of members added, and the database.
  abbrev pub add_nx : Bytes → ℕ → Db → ℕ × Db
  add_nx m s d = if is_some (score available m d) then (0, d) else (1, add available m s d)

  -- One round of the loop of LUA_INIT.
  unfoldable pub lua_init_slot : ℕ → Db → ℕ × Db
  lua_init_slot slot d =
      if is_some (score leases (to_decimal slot) d) then (0, d) else add_nx (to_decimal slot) 0 d

  -- `for slot = min, max`, with the number of rounds and the next slot.
  unfoldable pub lua_init_loop : ℕ → ℕ → Db → ℕ × Db
  unfolding lua_init_slot
  lua_init_loop zero slot d = (0, d)
  lua_init_loop (suc rounds) slot d =
      let (n, d') = lua_init_slot slot d in
      let (added, d'') = lua_init_loop rounds (slot + 1) d' in (n + added, d'')

  unfoldable pub lua_init : ℕ → ℕ → Db → ℕ × Db
  unfolding lua_init_loop
  lua_init min max d = lua_init_loop (max + 1 - min) min d

  -- An expired lease goes back into the free pool.
  unfoldable pub sweep_slot : ℕ → Bytes → Db → Db
  sweep_slot now slot d = del (key_owner slot) (add available slot now (rem leases slot d))

  unfoldable pub sweep : ℕ → List Bytes → Db → Db
  sweep now [] d = d
  sweep now (slot ∷ expired) d = sweep now expired (sweep_slot now slot d)

  unfoldable pub swept : ℕ → Db → Db
  unfolding sweep
  swept now d = sweep now (up_to leases now d) d

  -- ZPOPMIN slots:available, then the lease and its owner.
  unfoldable pub take : ℕ → Bytes → ℕ → Option (Bytes × ℕ) → Db → Option Bytes × Db
  take now owner ttl_ms none d = (none, d)
  take now owner ttl_ms (some (slot, s)) d = (
    some slot,
    set (key_owner slot) owner (add leases slot (now + ttl_ms) (rem available slot d)),
  )

  unfoldable pub lua_claim : ℕ → Bytes → ℕ → Db → Option Bytes × Db
  unfolding take swept
  lua_claim now owner ttl_ms d =
      let d' = swept now d in take now owner ttl_ms (first available d') d'

  unfoldable pub lua_renew : Bytes → Bytes → ℕ → ℕ → Db → ℕ × Db
  unfolding holds_text
  lua_renew slot owner now ttl_ms d =
      if holds_text (get (key_owner slot) d) owner
      then (1, add leases slot (now + ttl_ms) d)
      else (0, d)

  -- DEL owner, ZREM lease, ZADD available: also the tail of `cmd_release` and of `release_slot`.
  unfoldable pub free_slot : Bytes → ℕ → Db → Db
  free_slot slot now d = add available slot now (rem leases slot (del (key_owner slot) d))

  unfoldable pub lua_release : Bytes → Bytes → ℕ → Db → ℕ × Db
  unfolding holds_text free_slot
  lua_release slot owner now d =
      if holds_text (get (key_owner slot) d) owner then (1, free_slot slot now d) else (0, d)
