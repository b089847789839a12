-- ===== src/Listener/Messages.antt =====
-- From a release in aeroslot to the actions of the master: the message that each client publishes, and
-- what the listener does with it.
use aerosuite.Base.{
  ℕ, ◌<◌, ◌≡◌, refl, ap, Bytes, Bool, false, Option, none, some, List, [], ◌∷◌, ◌++◌, bytes_beq,
  bytes_beq_iff, to_decimal, parse_unsigned, parse_unsigned-to_decimal, u64_mod,
}
use aerosuite.Program.{Call, AsgChange, Env, run, trace}
use aerosuite.Redis.{Redis}
use aerosuite.SlotPool.{key_owner, lua_release, holds_text}
use aerosuite.SlotPool.Server.{server, answer}
use aerosuite.SlotPool.Publish.{publish_asg_change, slot_number, release_action}
use aerosuite.SlotPool.Commands.{cmd_release, release_owned}
use aerosuite.SlotPool.Commands.Lua.{lua_cmd_release, when_one}
use aerosuite.SlotPool.Equivalence.{calm}
use aerosuite.SlotNetwork.{SlotNetwork, ip_for_slot}
use aerosuite.Snapshot.{weight_disabled}
use aerosuite.Listener.{handle_message}

abbrev released : ℕ → Option Bytes → AsgChange
released slot instance_id = record {
  slot = slot;
  action = release_action;
  instance_id = instance_id;
}

slot_number-to_decimal :
    (slot : ℕ) → slot < u64_mod → slot_number (parse_unsigned u64_mod (to_decimal slot)) ≡ slot
slot_number-to_decimal slot h = rw (parse_unsigned-to_decimal u64_mod slot h)

handle-released :
    (net : SlotNetwork) (slot : ℕ) (id : Bytes) (decrement : Bool) (env : Env) (w : env.World)
    → trace env (handle_message net false decrement (released slot (some id))) w
      ≡ Call.write_weight_file (ip_for_slot net slot) weight_disabled
        ∷ Call.terminate id decrement
        ∷ Call.notify_main
        ∷ []
unfolding handle_message trace bytes_beq
handle-released net slot id decrement env w = refl

handle-released_anonymous :
    (net : SlotNetwork) (slot : ℕ) (decrement : Bool) (env : Env) (w : env.World)
    → trace env (handle_message net false decrement (released slot none)) w
      ≡ Call.write_weight_file (ip_for_slot net slot) weight_disabled ∷ Call.notify_main ∷ []
unfolding handle_message trace bytes_beq
handle-released_anonymous net slot decrement env w = refl

module _ (R : Redis) (clock : ℕ) (channel : List AsgChange) (printed : List Bytes) where
  open R use {Db, get}

  release_message :
      (slot : ℕ) (id : Bytes) (d : Db)
      → slot < u64_mod
      → get (key_owner (to_decimal slot)) d ≡ some id
      → (run (server R) (cmd_release slot id) (calm R d clock channel printed)).1.channel
        ≡ channel ++ released slot (some id) ∷ []
  unfolding cmd_release release_owned publish_asg_change run answer
  release_message slot id d h e =
      rw (e, run, answer, release_owned, (bytes_beq_iff id id).1 refl)
        (ap (λ n. channel ++ released n (some id) ∷ []) (slot_number-to_decimal slot h))

  lua_release_message :
      (slot : ℕ) (id : Bytes) (d : Db)
      → slot < u64_mod
      → get (key_owner (to_decimal slot)) d ≡ some id
      → (run (server R) (lua_cmd_release slot id) (calm R d clock channel printed)).1.channel
        ≡ channel ++ released slot none ∷ []
  unfolding lua_cmd_release publish_asg_change when_one run answer lua_release
  lua_release_message slot id d h e =
      rw (e, run, answer, lua_release, holds_text)
        (rw ((bytes_beq_iff id id).1 refl, run)
          (ap (λ n. channel ++ released n none ∷ []) (slot_number-to_decimal slot h)))

  -- When the owner of a u64 slot releases it with the native client and every command is answered, the
  -- one message published makes a master that is not in a dry run disable the weight file of the slot's
  -- address, terminate that owner and refresh its snapshot, in this order and whatever the replies.
  pub release-handle_message :
      (slot : ℕ) (id : Bytes) (d : Db)
      → slot < u64_mod
      → get (key_owner (to_decimal slot)) d ≡ some id
      → (msg : AsgChange) × ((run
            (server R)
            (cmd_release slot id)
            (calm R d clock channel printed)).1.channel
          ≡ channel ++ msg ∷ [])
        × ((net : SlotNetwork) (decrement : Bool) (env : Env) (w : env.World)
            → trace env (handle_message net false decrement msg) w
              ≡ Call.write_weight_file (ip_for_slot net slot) weight_disabled
                ∷ Call.terminate id decrement
                ∷ Call.notify_main
                ∷ [])
  release-handle_message slot id d h e = (
    released slot (some id),
    release_message slot id d h e,
    λ net decrement env w. handle-released net slot id decrement env w,
  )

  -- When the owner of a u64 slot releases it with the Lua client and every command is answered, the one
  -- message published names no instance, and a master that is not in a dry run disables the weight file
  -- of the slot's address and refreshes its snapshot, but terminates nothing.
  pub lua_release-handle_message :
      (slot : ℕ) (id : Bytes) (d : Db)
      → slot < u64_mod
      → get (key_owner (to_decimal slot)) d ≡ some id
      → (msg : AsgChange) × ((run
            (server R)
            (lua_cmd_release slot id)
            (calm R d clock channel printed)).1.channel
          ≡ channel ++ msg ∷ [])
        × ((net : SlotNetwork) (decrement : Bool) (env : Env) (w : env.World)
            → trace env (handle_message net false decrement msg) w
              ≡ Call.write_weight_file (ip_for_slot net slot) weight_disabled
                ∷ Call.notify_main
                ∷ [])
  lua_release-handle_message slot id d h e = (
    released slot none,
    lua_release_message slot id d h e,
    λ net decrement env w. handle-released_anonymous net slot decrement env w,
  )
