-- ===== src/SlotPool/Status.antt =====
-- cmd_status of aeroslot/src/main.rs and aeroslot/src/lua.rs, which send the same commands. What the table shows
-- is a record; its layout and the seconds as decimals are left out.
use aerosuite.Base.{
  ℕ, ◌-◌, Bytes, codes, Bool, Option, none, some, List, [], ◌∷◌, map, leb, nat_beq, parse_unsigned,
  u32_mod, sort_by, if◌then◌else◌,
}
use aerosuite.Program.{Call, Prog, ret, send, Result, ok, err, available, leases, ◌>>=◌, ◌>>=?◌}
use aerosuite.SlotPool.{key_owner}
use aerosuite.SlotPool.Publish.{slot_number}

-- A line for a lease: `remaining` is in ms, and none of an expired one.
pub record LeaseRow : Type 0 where
  pub slot : Bytes
  pub owner : Bytes
  pub remaining : Option ℕ

-- `free_for` of a slot is in ms, and none since init.
pub record PoolStatus : Type 0 where
  pub free_count : ℕ
  pub free : List (Bytes × Option ℕ)
  pub rows : List LeaseRow

unfoldable pub free_for : ℕ → ℕ → Option ℕ
free_for now score = if nat_beq score 0 then none else some (now - score)

unfoldable pub remaining_time : ℕ → ℕ → Option ℕ
remaining_time now expiry_ms = if leb expiry_ms now then none else some (expiry_ms - now)

-- A missing owner record and a failed GET are told apart.
unfoldable pub owner_text : Result (Option Bytes) → Bytes
owner_text (ok (some id)) = id
owner_text (ok none) = codes "(missing)"
owner_text (err e) = codes "(unknown)"

-- The order of the table; a slot that is no u32 counts as 0.
unfoldable pub slot_leb : Bytes × ℕ → Bytes × ℕ → Bool
slot_leb (s, x) (t, y) =
    leb (slot_number (parse_unsigned u32_mod s)) (slot_number (parse_unsigned u32_mod t))

unfoldable pub lease_rows : ℕ → List (Bytes × ℕ) → Prog (List LeaseRow)
unfolding owner_text remaining_time
lease_rows now [] = ret []
lease_rows now ((slot, expiry_ms) ∷ sorted) =
    let rest = lease_rows now sorted in
    send (Call.get (key_owner slot)) >>= λ r. rest >>= λ rows.
    ret (
      record { slot = slot; owner = owner_text r; remaining = remaining_time now expiry_ms } ∷ rows)

unfoldable pub cmd_status : Prog (Result PoolStatus)
unfolding lease_rows slot_leb free_for sort_by
cmd_status = send (Call.zcard available) >>=? λ free_count.
    send (Call.zrange_withscores available) >>=? λ free_slots_raw.
    send (Call.zrange_withscores leases) >>=? λ held. send Call.now_ms >>= λ now.
    lease_rows now (sort_by slot_leb held) >>= λ rows. ret (
      ok (record {
        free_count = free_count;
        free = map (λ x. (x.0, free_for now x.1)) free_slots_raw;
        rows = rows;
      }))

-- The Lua client sends the ZRANGE commands by hand, which makes no difference to the server.
unfoldable pub lua_cmd_status : Prog (Result PoolStatus)
unfolding cmd_status
lua_cmd_status = cmd_status
