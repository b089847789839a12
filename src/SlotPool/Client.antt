-- ===== src/SlotPool/Client.antt =====
-- The entry points of aeroslot/src/main.rs and aeroslot/src/lua.rs, and build_redis_client of
-- aerocore/src/redis_pool/mod.rs, with the Redis library's constructors of a client and the reading of the
-- certificate as parameters.
use aerosuite.Base.{
  ℕ, Bytes, codes, Bool, ◌&&◌, ◌||◌, not, Option, none, some, ◌++◌, is_some, strip_prefix,
  if◌then◌else◌,
}
use aerosuite.Xml.{split_first}
use aerosuite.Program.{Call, Prog, ret, send, Result, ok, err, ◌>>=?◌}
use aerosuite.SlotPool.Status.{cmd_status, lua_cmd_status}
use aerosuite.SlotPool.Commands.{cmd_init, cmd_claim, cmd_renew, cmd_heartbeat, cmd_release}
use aerosuite.SlotPool.Commands.Lua.{lua_cmd_init, lua_cmd_claim, lua_cmd_renew, lua_cmd_release}

unfoldable pub wants_tls : Bytes → Bool → Bool → Option Bytes → Bool
wants_tls redis_url tls tls_insecure tls_ca_cert =
    tls
    || tls_insecure
    || is_some tls_ca_cert
    || is_some (strip_prefix (codes "rediss://") redis_url)

-- `redis://` at the front becomes `rediss://`.
unfoldable pub with_tls : Bytes → Bytes
with_tls redis_url = elim (strip_prefix (codes "redis://") redis_url) [
  | none ↦ redis_url
  | some rest ↦ codes "rediss://" ++ rest
]

unfoldable pub with_insecure : Bool → Bytes → Bytes
with_insecure tls_insecure url =
    if tls_insecure && not (is_some (split_first (codes "#insecure") url))
    then url ++ codes "#insecure"
    else url

module _ {Client : Type 0} (open_client : Bytes → Result Client) (read : Bytes → Result Bytes)
    (build_with_tls : Bytes → Bytes → Result Client) where
  unfoldable pub tls_client : Bytes → Option Bytes → Result Client
  tls_client url none = open_client url
  tls_client url (some ca_path) = elim (read ca_path) [
    | ok ca_pem ↦ build_with_tls url ca_pem
    | err e ↦ err e
  ]

  unfoldable pub build_redis_client : Bytes → Bool → Bool → Option Bytes → Result Client
  unfolding wants_tls with_tls with_insecure tls_client
  build_redis_client redis_url tls tls_insecure tls_ca_cert =
      if wants_tls redis_url tls tls_insecure tls_ca_cert
      then tls_client (with_insecure tls_insecure (with_tls redis_url)) tls_ca_cert
      else open_client redis_url

-- The subcommands; of the Lua client all but `heartbeat`.
pub data Command : Type 0 where
  init : ℕ → ℕ → Command
  claim : Bytes → ℕ → Command
  renew : ℕ → Bytes → ℕ → Command
  release : ℕ → Bytes → Command
  status : Command

pub data NativeCommand : Type 0 where
  plain : Command → NativeCommand
  -- slot, instance id, ttl_ms, interval, retry attempts, retry_delay_ms
  heartbeat : ℕ → Bytes → ℕ → ℕ → ℕ → ℕ → NativeCommand

-- A command whose result is only printed.
unfoldable pub finish : {A : Type 0} → Prog (Result A) → Prog (Result (Unit {0}))
finish m = m >>=? λ _. ret (ok tt)

unfoldable pub plain_command : Command → Prog (Result (Unit {0}))
unfolding finish cmd_init cmd_claim cmd_renew cmd_release cmd_status
plain_command (init min max) = finish (cmd_init min max)
plain_command (claim instance_id ttl_ms) = cmd_claim instance_id ttl_ms
plain_command (renew slot instance_id ttl_ms) = cmd_renew slot instance_id ttl_ms
plain_command (release slot instance_id) = cmd_release slot instance_id
plain_command status = finish cmd_status

-- The native client; `ticks` are the intervals before a SIGTERM.
unfoldable pub native_main : ℕ → NativeCommand → Prog (Result (Unit {0}))
unfolding plain_command cmd_heartbeat
native_main ticks (plain c) = send Call.connect >>=? λ _. plain_command c
native_main ticks (heartbeat slot instance_id ttl_ms interval retry_attempts retry_delay_ms) =
    send Call.connect >>=? λ _.
    cmd_heartbeat ticks retry_attempts slot instance_id ttl_ms interval retry_delay_ms

unfoldable pub lua_command : Command → Prog (Result (Unit {0}))
unfolding finish lua_cmd_init lua_cmd_claim lua_cmd_renew lua_cmd_release lua_cmd_status
lua_command (init min max) = finish (lua_cmd_init min max)
lua_command (claim instance_id ttl_ms) = lua_cmd_claim instance_id ttl_ms
lua_command (renew slot instance_id ttl_ms) = lua_cmd_renew slot instance_id ttl_ms
lua_command (release slot instance_id) = lua_cmd_release slot instance_id
lua_command status = finish lua_cmd_status

unfoldable pub lua_main : Command → Prog (Result (Unit {0}))
unfolding lua_command
lua_main c = send Call.connect >>=? λ _. lua_command c
