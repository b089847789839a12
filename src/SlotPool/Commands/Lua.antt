-- ===== src/SlotPool/Commands/Lua.antt =====
-- aeroslot/src/lua.rs: the commands of the Lua client. Each sends one script.
use aerosuite.Base.{ℕ, Bytes, Option, none, some, ltb, to_decimal, nat_beq, if◌then◌else◌}
use aerosuite.Program.{
  Call, Prog, ret, send, Result, ok, err, min_above_max, no_free_slot, not_owner, script_init,
  script_claim, script_renew, script_release, ◌>>=◌, ◌>>=?◌,
}
use aerosuite.SlotPool.Publish.{publish_asg_change, claim_action, release_action}

-- A script's integer reply 1 means success; otherwise the process exits with 1.
unfoldable pub when_one : ℕ → Prog (Result (Unit {0})) → Prog (Result (Unit {0}))
when_one n next = if nat_beq n 1 then next else ret (err not_owner)

unfoldable pub lua_cmd_init : ℕ → ℕ → Prog (Result ℕ)
lua_cmd_init min max =
    if ltb max min then ret (err min_above_max) else send (Call.eval (script_init min max))

unfoldable pub lua_claimed : Option Bytes → Prog (Result (Unit {0}))
unfolding publish_asg_change
lua_claimed none = ret (err no_free_slot)
lua_claimed (some n) = send (Call.print_slot n) >>= λ _. publish_asg_change n claim_action none

unfoldable pub lua_cmd_claim : Bytes → ℕ → Prog (Result (Unit {0}))
unfolding lua_claimed
lua_cmd_claim instance_id ttl_ms = send Call.now_ms >>= λ now.
    send (Call.eval (script_claim now instance_id ttl_ms)) >>=? lua_claimed

unfoldable pub lua_cmd_renew : ℕ → Bytes → ℕ → Prog (Result (Unit {0}))
unfolding when_one
lua_cmd_renew slot instance_id ttl_ms = send Call.now_ms >>= λ now.
    send (Call.eval (script_renew (to_decimal slot) instance_id now ttl_ms)) >>=? λ n.
    when_one n (ret (ok tt))

-- The release message of this client carries no instance id.
unfoldable pub lua_cmd_release : ℕ → Bytes → Prog (Result (Unit {0}))
unfolding when_one publish_asg_change
lua_cmd_release slot instance_id = send Call.now_ms >>= λ now.
    send (Call.eval (script_release (to_decimal slot) instance_id now)) >>=? λ n.
    when_one n (publish_asg_change (to_decimal slot) release_action none)
