-- ===== src/Listener.antt =====
-- aeroscale/src/listener.rs: what one message on the `asg-change` channel makes the master do.
pub mod Messages
use aerosuite.Base.{
  ℕ, Bytes, codes, Bool, true, false, Option, none, some, List, [], ◌∷◌, ◌==◌, bytes_eq, ltb,
  u32_mod, if◌then◌else◌,
}
use aerosuite.Program.{Call, Prog, ret, send, Result, ok, err, AsgChange, ◌>>=◌}
use aerosuite.SlotNetwork.{SlotNetwork, ip_for_slot}
use aerosuite.Snapshot.{weight_active, weight_disabled}
use aerosuite.Cleanup.{write_weight, terminate_instance}

-- The end of "release": without an instance id the termination is left to the cleanup loop.
unfoldable pub terminate_named : Option Bytes → Bool → Bool → Prog (Unit {0})
unfolding terminate_instance
terminate_named none dry_run decrement = ret tt
terminate_named (some id) dry_run decrement =
    terminate_instance id dry_run decrement >>= λ _. ret tt

module _ (net : SlotNetwork) (dry_run term_decrements_capacity : Bool) where
  -- Errors of the writes and of the termination are logged; the main loop is woken in each case.
  unfoldable pub handle_message : AsgChange → Prog (Unit {0})
  unfolding terminate_named write_weight
  handle_message msg =
      let ip = ip_for_slot net msg.slot in
      (if msg.action == codes "claim"
        then (write_weight ip weight_active dry_run >>= λ _. ret tt)
        else if msg.action == codes "release"
        then (write_weight ip weight_disabled dry_run >>= λ _.
            terminate_named msg.instance_id dry_run term_decrements_capacity)
        else ret tt)
      >>= λ _. send Call.notify_main

  -- AsgChangeMsg has a u32 slot: serde_json refuses a message with another one.
  unfoldable pub of_u32 : AsgChange → Option AsgChange
  of_u32 msg = if ltb msg.slot u32_mod then some msg else none

  abbrev pub narrowed : Option AsgChange → Option AsgChange
  narrowed none = none
  narrowed (some msg) = of_u32 msg

  -- The messages of one subscription: a payload that cannot be read or parsed is skipped. `parse`
  -- stands for serde_json as far as the other fields go.
  unfoldable pub handle_stream : (Bytes → Option AsgChange) → List (Result Bytes) → Prog (Unit {0})
  unfolding handle_message of_u32
  handle_stream parse [] = ret tt
  handle_stream parse (err e ∷ more) = handle_stream parse more
  handle_stream parse (ok raw ∷ more) =
      let rest = handle_stream parse more in
      elim (narrowed (parse raw)) [ none ↦ rest | some msg ↦ handle_message msg >>= λ _. rest ]

  -- subscribe_once: the payloads that come until the stream ends, unless opening or subscribing fails.
  unfoldable pub subscribe_once :
      (Bytes → Option AsgChange) → Result (List (Result Bytes)) → Prog (Result (Unit {0}))
  unfolding handle_stream
  subscribe_once parse (err e) = ret (err e)
  subscribe_once parse (ok payloads) = handle_stream parse payloads >>= λ _. ret (ok tt)

  -- run, over the connections that it has had so far: whatever one ends with, the next is opened 5 s later.
  unfoldable pub run_listener :
      (Bytes → Option AsgChange) → List (Result (List (Result Bytes))) → Prog (Unit {0})
  unfolding subscribe_once
  run_listener parse [] = ret tt
  run_listener parse (connection ∷ more) =
      let rest = run_listener parse more in
      subscribe_once parse connection >>= λ _. send (Call.sleep_secs 5) >>= λ _. rest
