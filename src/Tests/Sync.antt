-- ===== src/Tests/Sync.antt =====
-- Two hosts that share the keys of Redis.
use aerosuite.Base.{
  strip_prefix, ◌≡◌, refl, Bytes, codes, none, some, [], ◌∷◌, lookup, is_some, trim, bytes_beq,
  parse_unsigned, if◌then◌else◌, bytes_eq,
}
use aerosuite.Program.{ok, run}
use aerosuite.WeightSync.{ip_text, strip_suffix, restore_from_redis, persist}
use aerosuite.WeightSync.Startup.{parse_ipv4, split_dots, octet}
use aerosuite.WeightSync.Restore.{Host, host, stored, value_or, restore_from_redis-stored}
use aerosuite.WeightSync.Failover.{restore_from_redis-persist}

abbrev weight_file : Bytes
weight_file = codes "backend-10.0.0.3.weight"

abbrev first_host : Host
first_host = record { files = (weight_file, codes "0 ") ∷ []; keys = []; clock = 70 }

-- As keepalived leaves the files at its start.
abbrev fresh_host : Host
fresh_host = record {
  files = (weight_file, codes "-1") ∷ (codes "notes", codes "x") ∷ [];
  keys = (codes "backend:weight:10.0.0.3", codes "0") ∷ [];
  clock = 90;
}

address_of_file : ip_text weight_file ≡ some (codes "10.0.0.3")
unfolding ip_text strip_suffix bytes_beq strip_prefix
address_of_file = refl

restore_from_redis-stored_example :
    ((run host restore_from_redis fresh_host).0 ≡ ok tt)
    × ((run host restore_from_redis fresh_host).1.keys ≡ fresh_host.keys)
    × ((n : Bytes)
        → lookup n (run host restore_from_redis fresh_host).1.files ≡ (
            if is_some (lookup n fresh_host.files)
            then value_or (stored fresh_host.keys n) (lookup n fresh_host.files)
            else none))
restore_from_redis-stored_example = restore_from_redis-stored fresh_host

restore_from_redis-persist_example :
    lookup weight_file
      (run host restore_from_redis
        (record fresh_host { keys = (run host persist first_host).1.keys })).1.files
    ≡ some (trim (trim (codes "0 ")))
unfolding lookup bytes_beq
restore_from_redis-persist_example =
    restore_from_redis-persist first_host fresh_host weight_file (codes "10.0.0.3") (codes "0 ")
      address_of_file refl refl

address_parsed : parse_ipv4 (codes "10.0.0.3") ≡ some 167772163
unfolding parse_ipv4 split_dots octet parse_unsigned
address_parsed = refl
