-- ===== src/Tests/Clients.antt =====
-- The two clients, side by side and at once.
use aerosuite.Base.{
  List, ◌≡◌, refl, codes, Bool, false, some, [], ◌∷◌, lookup, filter, bytes_beq, to_decimal, arith,
  none, true, Bytes, strip_prefix,
}
use aerosuite.Program.{ret, ok, AsgChange, Env, run, trace, Call}
use aerosuite.Redis.Table.{Table, table, names_up_to}
use aerosuite.SlotPool.{key_owner}
use aerosuite.SlotPool.Server.{server, Session, answer}
use aerosuite.SlotPool.Server.{Fate, lost, unanswered}
use aerosuite.Xml.{split_first}
use aerosuite.SlotPool.Status.{cmd_status}
use aerosuite.SlotPool.Client.{build_redis_client}
use aerosuite.SlotPool.Commands.{cmd_claim, cmd_init, cmd_renew, cmd_release}
use aerosuite.SlotPool.Commands.Lua.{lua_cmd_claim, lua_cmd_init, lua_cmd_renew, lua_cmd_release}
use aerosuite.SlotPool.Equivalence.{
  calm, succeeds, cmd_claim-lua_cmd_claim, cmd_init-lua_cmd_init, cmd_renew-lua_cmd_renew,
}
use aerosuite.SlotPool.Race.{interleave, late_second, two_claims_one_slot}
use aerosuite.SlotNetwork.{SlotNetwork, ip_for_slot}
use aerosuite.Snapshot.{weight_disabled}
use aerosuite.Listener.{handle_message}
use aerosuite.Listener.Messages.{release-handle_message, lua_release-handle_message}
use aerosuite.Tests.Pool.{one_of_two}

-- Slot 3 is leased until 4 by i-0, and no slot is free.
abbrev exhausted_pool : Table
exhausted_pool = record {
  keys = (codes "slot:owner:3", codes "i-0") ∷ [];
  free = [];
  leased = (codes "3", 4) ∷ [];
}

cmd_claim-lua_cmd_claim_example :
    run (server table) (cmd_claim (codes "i-1") 30) (calm table one_of_two 5 [] [])
    ≡ run (server table) (lua_cmd_claim (codes "i-1") 30) (calm table one_of_two 5 [] [])
cmd_claim-lua_cmd_claim_example =
    cmd_claim-lua_cmd_claim table 5 [] [] (codes "i-1") 30 one_of_two (omega arith)

cmd_init-lua_cmd_init_example :
    run (server table) (cmd_init 2 4) (calm table one_of_two 5 [] [])
    ≡ run (server table) (lua_cmd_init 2 4) (calm table one_of_two 5 [] [])
cmd_init-lua_cmd_init_example = cmd_init-lua_cmd_init table 5 [] [] 2 4 one_of_two

cmd_renew-lua_cmd_renew_example :
    (succeeds (run (server table) (cmd_renew 3 (codes "i-0") 30) (calm table one_of_two 5 [] [])).0
      ≡ succeeds
          (run (server table) (lua_cmd_renew 3 (codes "i-0") 30) (calm table one_of_two 5 [] [])).0)
    × ((run (server table) (cmd_renew 3 (codes "i-0") 30) (calm table one_of_two 5 [] [])).1
        ≡ (run (server table) (lua_cmd_renew 3 (codes "i-0") 30) (calm table one_of_two 5 [] [])).1)
cmd_renew-lua_cmd_renew_example =
    cmd_renew-lua_cmd_renew table 5 [] [] 3 (codes "i-0") 30 one_of_two (omega arith)

two_claims_one_slot_example :
    (end : Session table) × (interleave table
        (late_second table 5 30 [] [] (codes "3") exhausted_pool)
        (cmd_claim (codes "i-1") 30)
        (cmd_claim (codes "i-2") 30)
        (calm table exhausted_pool 5 [] [])
      ≡ (ret (ok tt), ret (ok tt), end))
    × (end.printed ≡ codes "3" ∷ codes "3" ∷ [])
    × (table.get (key_owner (codes "3")) end.db ≡ some (codes "i-2"))
unfolding lookup names_up_to filter bytes_beq
two_claims_one_slot_example =
    two_claims_one_slot table 5 30 [] [] (codes "3") exhausted_pool (codes "i-1") (codes "i-2") refl
      (λ m. refl)

release-handle_message_example :
    (msg : AsgChange) × ((run
        (server table)
        (cmd_release 3 (codes "i-0"))
        (calm table one_of_two 5 [] [])).1.channel
      ≡ msg ∷ [])
    × ((net : SlotNetwork) (decrement : Bool) (env : Env) (w : env.World)
        → trace env (handle_message net false decrement msg) w
          ≡ Call.write_weight_file (ip_for_slot net 3) weight_disabled
            ∷ Call.terminate (codes "i-0") decrement
            ∷ Call.notify_main
            ∷ [])
unfolding lookup key_owner to_decimal bytes_beq
release-handle_message_example =
    release-handle_message table 5 [] [] 3 (codes "i-0") one_of_two (omega arith) refl

lua_release-handle_message_example :
    (msg : AsgChange) × ((run
        (server table)
        (lua_cmd_release 3 (codes "i-0"))
        (calm table one_of_two 5 [] [])).1.channel
      ≡ msg ∷ [])
    × ((net : SlotNetwork) (decrement : Bool) (env : Env) (w : env.World)
        → trace env (handle_message net false decrement msg) w
          ≡ Call.write_weight_file (ip_for_slot net 3) weight_disabled ∷ Call.notify_main ∷ [])
unfolding lookup key_owner to_decimal bytes_beq
lua_release-handle_message_example =
    lua_release-handle_message table 5 [] [] 3 (codes "i-0") one_of_two (omega arith) refl

-- Two commands are lost, the second on its way back.
abbrev two_losses : List Fate
two_losses = lost ∷ unanswered ∷ []

-- A certificate path asks for TLS: the client is built for the other scheme, with the certificate.
tls_by_certificate :
    build_redis_client {Client = Bytes × Bytes}
      (λ url. ok (url, codes "none"))
      (λ path. ok path)
      (λ url ca_pem. ok (url, ca_pem))
      (codes "redis://db:6379")
      false
      true
      (some (codes "ca.pem"))
    ≡ ok (codes "rediss://db:6379#insecure", codes "ca.pem")
unfolding bytes_beq build_redis_client split_first
tls_by_certificate = refl

-- A socket path keeps its scheme although TLS is asked for.
tls_of_socket :
    build_redis_client {Client = Bytes}
      (λ url. ok url)
      (λ path. ok path)
      (λ url ca_pem. ok url)
      (codes "unix:///redis.sock")
      true
      false
      none
    ≡ ok (codes "unix:///redis.sock")
unfolding build_redis_client strip_prefix
tls_of_socket = refl

-- At 5 the lease of slot 3 until 4 is expired, and slot 7 is free since init.
status_of_two :
    (run (server table) cmd_status (calm table one_of_two 5 [] [])).0
    ≡ ok (record {
      free_count = 1;
      free = (codes "7", none) ∷ [];
      rows = record { slot = codes "3"; owner = codes "i-0"; remaining = none } ∷ [];
    })
unfolding lookup key_owner bytes_beq run cmd_status answer
status_of_two = refl
