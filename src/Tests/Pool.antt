-- ===== src/Tests/Pool.antt =====
-- The slot pool: scripts on small tables.
use aerosuite.Base.{
  ◌+◌, ◌*◌, ◌≡◌, refl, codes, some, List, [], ◌∷◌, lookup, contains, bytes_beq, filter, remove,
  insert, to_decimal, arith, if◌then◌else◌, ◌-◌, bytes_eq,
}
use aerosuite.Program.{ok, run, leases, Script, script_init, script_claim, script_release}
use aerosuite.Redis.Table.{Table, table, least, names_up_to}
use aerosuite.SlotPool.{key_owner, lua_init, lua_claim, sweep_slot}
use aerosuite.SlotPool.Server.{eval_script}
use aerosuite.SlotPool.View.{view}
use aerosuite.SlotPool.Init.{admit, in_slots, view-init}
use aerosuite.SlotPool.Claim.{Claims, lua_claim-Claims}
use aerosuite.SlotPool.Invariant.{IsPool, run_scripts, run_scripts-IsPool, known}
use aerosuite.SlotPool.Commands.{cmd_heartbeat}
use aerosuite.SlotPool.Heartbeat.{Shared, shared, Holds}
use aerosuite.SlotPool.Heartbeat.Held.{cmd_heartbeat-Holds}
use aerosuite.SlotPool.Leases.{lua_claim-keeps_live, eval_script-known}

abbrev pub nothing : Table
nothing = record { keys = []; free = []; leased = [] }

-- Slot 3 is leased until 4, slot 7 is free since 0.
abbrev pub one_of_two : Table
one_of_two = record {
  keys = (codes "slot:owner:3", codes "i-0") ∷ [];
  free = (codes "7", 0) ∷ [];
  leased = (codes "3", 4) ∷ [];
}

nothing-IsPool : IsPool table nothing
unfolding lookup
nothing-IsPool = record { at = λ m. refl }

abbrev one_start : List Script
one_start = script_init 0 0 ∷ script_claim 1 (codes "i-1") 30 ∷ []

-- Slot 0 is leased until 31.
abbrev leased_zero : Table
leased_zero = run_scripts table one_start nothing

leased_zero-IsPool : IsPool table leased_zero
leased_zero-IsPool = run_scripts-IsPool table one_start nothing nothing-IsPool

leased_zero-score : table.score leases (codes "0") leased_zero ≡ some 31
unfolding run_scripts eval_script lua_init lua_claim least names_up_to filter lookup contains
    bytes_beq remove insert to_decimal key_owner sweep_slot
leased_zero-score = refl

-- The claim at 5 takes slot 7, free since 0, and not slot 3, free since the sweep.
claims_oldest : (lua_claim table 5 (codes "i-1") 30 one_of_two).0 ≡ some (codes "7")
unfolding lua_claim least names_up_to filter lookup contains bytes_beq remove insert key_owner
    sweep_slot
claims_oldest = refl

lua_claim-Claims_example :
    Claims table 5 (codes "i-1") 30 one_of_two (lua_claim table 5 (codes "i-1") 30 one_of_two)
lua_claim-Claims_example = lua_claim-Claims table 5 (codes "i-1") 30 one_of_two

run_scripts-IsPool_example : IsPool table (run_scripts table one_start nothing)
run_scripts-IsPool_example = run_scripts-IsPool table one_start nothing nothing-IsPool

lua_claim-keeps_live_example :
    view table (codes "0") (lua_claim table 2 (codes "i-2") 30 leased_zero).1
    ≡ view table (codes "0") leased_zero
lua_claim-keeps_live_example =
    lua_claim-keeps_live table leased_zero leased_zero-IsPool 2 (codes "i-2") 30 (codes "0") 31
      leased_zero-score (omega arith)

eval_script-known_example :
    known table (
      view table
        (codes "0")
        (eval_script table (script_release (codes "0") (codes "i-1") 3) leased_zero).1)
    ≡ known table (view table (codes "0") leased_zero)
eval_script-known_example =
    eval_script-known table leased_zero leased_zero-IsPool
      (script_release (codes "0") (codes "i-1") 3) refl (codes "0")

view-init_example : view table (codes "7") (lua_init table 6 8 one_of_two).1 ≡ (
    if in_slots (8 + 1 - 6) 6 (codes "7")
    then admit (view table (codes "7") one_of_two)
    else view table (codes "7") one_of_two)
view-init_example = view-init table 6 8 (codes "7") one_of_two

-- The holder of slot 0, with two sleeps in which others claim, try to release, and make up slots.
abbrev busy : Shared table
busy = record {
  session = record { db = leased_zero; clock = 2; channel = []; printed = []; fates = [] };
  others =
      (script_claim 900 (codes "i-2") 30 ∷ script_release (codes "0") (codes "i-2") 950 ∷ [])
      ∷ (script_init 0 1 ∷ script_claim 2000 (codes "i-3") 30 ∷ [])
      ∷ [];
}

leased_zero-owner : table.get (key_owner (to_decimal 0)) leased_zero ≡ some (codes "i-1")
unfolding run_scripts eval_script lua_init lua_claim least names_up_to filter lookup contains
    bytes_beq remove insert to_decimal key_owner sweep_slot
leased_zero-owner = refl

cmd_heartbeat-Holds_example :
    ((run (shared table) (cmd_heartbeat 2 3 0 (codes "i-1") 5000 1 6000) busy).0 ≡ ok tt)
    × Holds table
        (to_decimal 0)
        (codes "i-1")
        (2 + 2 * (1 * 1000) + 5000)
        (run (shared table) (cmd_heartbeat 2 3 0 (codes "i-1") 5000 1 6000) busy).1.session.db
unfolding bytes_beq to_decimal
cmd_heartbeat-Holds_example =
    cmd_heartbeat-Holds table 2 3 0 (codes "i-1") 5000 1 6000 busy (omega arith) (omega arith) refl
      leased_zero-IsPool leased_zero-owner
      ((omega arith, (refl, tt)), ((tt, (omega arith, tt)), tt))
