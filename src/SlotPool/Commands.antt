-- ===== src/SlotPool/Commands.antt =====
-- aeroslot/src/main.rs: the commands of the native client, which send plain Redis commands.
-- Expiry times are u64 sums that wrap; Redis keeps scores as doubles, exact below 2 ^ 53.
pub mod Lua
use aerosuite.Base.{
  ℕ, zero, suc, ◌+◌, ◌-◌, ◌%◌, Bytes, codes, Option, none, some, List, [], ◌∷◌, Bool, true, false,
  is_some, ltb, to_decimal, parse_unsigned, u64_mod, ◌==◌, bytes_eq, if◌then◌else◌,
}
use aerosuite.Program.{
  Call, Prog, ret, send, Result, ok, err, min_above_max, no_owner, no_free_slot, owned_by_other,
  call_failed, transient, Error, available, leases, AsgChange, ◌>>=◌, ◌>>=?◌,
}
use aerosuite.SlotPool.{key_owner}
use aerosuite.SlotPool.Publish.{publish_asg_change, claim_action, release_action}

-- One round of the loop of cmd_init: the number of members added.
unfoldable pub init_slot : Bytes → Prog (Result ℕ)
init_slot s = send (Call.zscore leases s) >>=? λ leased.
    if is_some leased then ret (ok 0) else send (Call.zadd_nx available s 0)

unfoldable pub init_loop : ℕ → ℕ → Prog (Result ℕ)
unfolding init_slot
init_loop zero slot = ret (ok 0)
init_loop (suc rounds) slot =
    let rest = init_loop rounds (slot + 1) in
    init_slot (to_decimal slot) >>=? λ n. rest >>=? λ added. ret (ok (n + added))

unfoldable pub cmd_init : ℕ → ℕ → Prog (Result ℕ)
unfolding init_loop
cmd_init min max = if ltb max min then ret (err min_above_max) else init_loop (max + 1 - min) min

-- The sweep of cmd_claim, over the slots that ZRANGEBYSCORE returned.
unfoldable pub sweep_loop : ℕ → List Bytes → Prog (Result (Unit {0}))
sweep_loop now [] = ret (ok tt)
sweep_loop now (slot ∷ expired) =
    let rest = sweep_loop now expired in
    send (Call.zrem leases slot) >>=? λ _.
    send (Call.zadd available slot now) >>=? λ _. send (Call.del (key_owner slot)) >>=? λ _. rest

-- What cmd_claim does with the result of ZPOPMIN; without a free slot the process exits with 1.
unfoldable pub register : ℕ → Bytes → ℕ → Option (Bytes × ℕ) → Prog (Result (Unit {0}))
unfolding publish_asg_change
register now instance_id ttl_ms none = ret (err no_free_slot)
register now instance_id ttl_ms (some (s, score)) =
    send (Call.zadd leases s ((now + ttl_ms) % u64_mod)) >>=? λ _.
    send (Call.set_key (key_owner s) instance_id) >>=? λ _.
    send (Call.print_slot s) >>= λ _. publish_asg_change s claim_action none

unfoldable pub cmd_claim : Bytes → ℕ → Prog (Result (Unit {0}))
unfolding sweep_loop register
cmd_claim instance_id ttl_ms = send Call.now_ms >>= λ now.
    send (Call.zrangebyscore leases now) >>=? λ expired. sweep_loop now expired >>=? λ _.
    send (Call.zpopmin available) >>=? register now instance_id ttl_ms

unfoldable pub renew_owned : Bytes → Bytes → ℕ → Option Bytes → Prog (Result (Unit {0}))
renew_owned slot instance_id ttl_ms none = ret (err no_owner)
renew_owned slot instance_id ttl_ms (some o) =
    if o == instance_id
    then (send Call.now_ms >>= λ now. send (Call.zadd leases slot ((now + ttl_ms) % u64_mod)))
    else ret (err (owned_by_other o))

unfoldable pub cmd_renew : ℕ → Bytes → ℕ → Prog (Result (Unit {0}))
unfolding renew_owned
cmd_renew slot instance_id ttl_ms =
    send (Call.get (key_owner (to_decimal slot)))
    >>=? renew_owned (to_decimal slot) instance_id ttl_ms

unfoldable pub release_owned : Bytes → Bytes → Option Bytes → Prog (Result (Unit {0}))
unfolding publish_asg_change
release_owned slot instance_id none = ret (err no_owner)
release_owned slot instance_id (some o) =
    if o == instance_id
    then (send Call.now_ms >>= λ now. send (Call.del (key_owner slot)) >>=? λ _.
        send (Call.zrem leases slot) >>=? λ _. send (Call.zadd available slot now) >>=? λ _.
        publish_asg_change slot release_action (some instance_id))
    else ret (err (owned_by_other o))

unfoldable pub cmd_release : ℕ → Bytes → Prog (Result (Unit {0}))
unfolding release_owned
cmd_release slot instance_id =
    send (Call.get (key_owner (to_decimal slot))) >>=? release_owned (to_decimal slot) instance_id

-- is_redis_io_error
unfoldable pub is_redis_io_error : Error → Bool
is_redis_io_error (call_failed transient) = true
is_redis_io_error _ = false

-- The inner loop of cmd_heartbeat, with the retries left: `attempt` counts up to `retry_attempts`.
-- A reconnection that fails keeps the old connection, so its result changes nothing.
unfoldable pub renew_with_retry : ℕ → ℕ → Bytes → ℕ → ℕ → Prog (Result (Unit {0}))
renew_with_retry zero slot instance_id ttl_ms retry_delay_ms = cmd_renew slot instance_id ttl_ms
renew_with_retry (suc retries) slot instance_id ttl_ms retry_delay_ms =
    let again = renew_with_retry retries slot instance_id ttl_ms retry_delay_ms in
    cmd_renew slot instance_id ttl_ms >>= λ r. elim r [
      | ok _ ↦ ret (ok tt)
      | err e ↦
          if is_redis_io_error e
          then (send (Call.sleep_ms retry_delay_ms) >>= λ _. send Call.connect >>= λ _. again)
          else ret (err e)
    ]

-- The outer loop of cmd_heartbeat, where SIGTERM comes after so many whole intervals, before the next one is over.
unfoldable pub heartbeat_loop : ℕ → ℕ → ℕ → Bytes → ℕ → ℕ → ℕ → Prog (Result (Unit {0}))
unfolding renew_with_retry
heartbeat_loop zero retries slot instance_id ttl_ms interval retry_delay_ms =
    renew_with_retry retries slot instance_id ttl_ms retry_delay_ms >>=? λ _. ret (ok tt)
heartbeat_loop (suc ticks) retries slot instance_id ttl_ms interval retry_delay_ms =
    let rest = heartbeat_loop ticks retries slot instance_id ttl_ms interval retry_delay_ms in
    renew_with_retry retries slot instance_id ttl_ms retry_delay_ms >>=? λ _.
    send (Call.sleep_secs interval) >>= λ _. rest

unfoldable pub cmd_heartbeat : ℕ → ℕ → ℕ → Bytes → ℕ → ℕ → ℕ → Prog (Result (Unit {0}))
unfolding heartbeat_loop
cmd_heartbeat ticks retries slot instance_id ttl_ms interval retry_delay_ms =
    send Call.connect >>=? λ _.
    heartbeat_loop ticks retries slot instance_id ttl_ms interval retry_delay_ms
