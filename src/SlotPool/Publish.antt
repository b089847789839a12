-- ===== src/SlotPool/Publish.antt =====
-- publish_asg_change of aeroslot/src/main.rs and aeroslot/src/lua.rs (there without instance id).
use aerosuite.Base.{ℕ, Bytes, codes, Option, none, some, parse_unsigned, u64_mod}
use aerosuite.Program.{Call, Prog, send, Result}

abbrev pub claim_action : Bytes
claim_action = codes "claim"

abbrev pub release_action : Bytes
release_action = codes "release"

abbrev pub slot_number : Option ℕ → ℕ
slot_number none = 0
slot_number (some n) = n

-- publish_asg_change: a slot that is no u64 is sent as 0.
unfoldable pub publish_asg_change : Bytes → Bytes → Option Bytes → Prog (Result (Unit {0}))
publish_asg_change slot action instance_id = send (
    Call.publish (record {
      slot = slot_number (parse_unsigned u64_mod slot);
      action = action;
      instance_id = instance_id;
    }))
