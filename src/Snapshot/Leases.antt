-- ===== src/Snapshot/Leases.antt =====
-- aeroscale/src/snapshot/leases.rs: the leases in Redis with their owners.
use aerosuite.Base.{
  ℕ, Bytes, codes, Option, none, some, List, [], ◌∷◌, leb, nat_eq, lookup, insert, remove, u32_mod,
  parse_unsigned, if◌then◌else◌,
}
use aerosuite.Program.{Call, Prog, ret, send, Result, ok, err, leases, ◌>>=◌}
use aerosuite.SlotPool.{key_owner}
use aerosuite.SlotPool.Publish.{slot_number}
use aerosuite.Snapshot.{SlotLease}

abbrev pub owner_missing : Bytes
owner_missing = codes "(missing)"

abbrev pub owner_unknown : Bytes
owner_unknown = codes "(unknown)"

-- owner_cache: the last owner that was read for each slot.
abbrev pub Cache : Type 0
Cache = List (ℕ × Bytes)

abbrev pub cached_or_unknown : Option Bytes → Bytes
cached_or_unknown none = owner_unknown
cached_or_unknown (some id) = id

-- The owner that one GET slot:owner:<n> leads to, and the cache after it.
unfoldable pub resolve_owner : ℕ → Cache → Result (Option Bytes) → Bytes × Cache
resolve_owner slot cache (ok (some id)) = (id, insert slot id cache)
resolve_owner slot cache (ok none) = (owner_missing, remove slot cache)
resolve_owner slot cache (err e) = (cached_or_unknown (lookup slot cache), cache)

-- The loop over the leases; the cache is updated in place.
unfoldable pub read_loop : List (Bytes × ℕ) → Cache → Prog (List SlotLease × Cache)
unfolding resolve_owner
read_loop [] cache = ret ([], cache)
read_loop ((slot_str, expiry_score) ∷ raw) cache =
    let slot = slot_number (parse_unsigned u32_mod slot_str) in
    send (Call.get (key_owner slot_str)) >>= λ owner_result.
    let (owner, cache') = resolve_owner slot cache owner_result in
    read_loop raw cache' >>= λ (rest, cache'').
    ret
      (record { slot = slot; owner_instance_id = owner; expires_ms = expiry_score } ∷ rest, cache'')

-- sort_by_key(|l| l.slot), which is stable
unfoldable pub insert_by_slot : SlotLease → List SlotLease → List SlotLease
insert_by_slot l [] = l ∷ []
insert_by_slot l (k ∷ ks) =
    let rest = insert_by_slot l ks in if leb l.slot k.slot then l ∷ k ∷ ks else k ∷ rest

unfoldable pub sort_by_slot : List SlotLease → List SlotLease
unfolding insert_by_slot
sort_by_slot [] = []
sort_by_slot (l ∷ ls) = insert_by_slot l (sort_by_slot ls)

unfoldable pub lease_entries :
    Cache → Result (List (Bytes × ℕ)) → Prog (Result (List SlotLease) × Cache)
unfolding read_loop sort_by_slot
lease_entries cache (err e) = ret (err e, cache)
lease_entries cache (ok entries) = send Call.now_ms >>= λ now.
    read_loop entries cache >>= λ (list, cache'). ret (ok (sort_by_slot list), cache')

unfoldable pub read_all : Cache → Prog (Result (List SlotLease) × Cache)
unfolding lease_entries
read_all cache = send (Call.zrange_withscores leases) >>= lease_entries cache
