-- ===== src/WeightSync.antt =====
-- aeroscale/src/weight_sync.rs: the weight files at startup, and their copy in Redis. A failed listing of
-- the directory ends a function; names are the file names in it.
pub mod Startup
pub mod Names
pub mod Restore
pub mod Failover
use aerosuite.Base.{
  strip_prefix, ℕ, ◌-◌, ◌/◌, Bytes, codes, Bool, true, false, Option, none, some, List, [], ◌∷◌,
  ◌++◌, ◌==◌, bytes_eq, nat_eq, bytes_beq, ltb, contains, trim, parse_unsigned, to_decimal, u64_mod,
  if◌then◌else◌,
}
use aerosuite.Program.{Call, Prog, ret, send, Result, ok, err, ◌>>=◌, ◌>>=?◌}
use aerosuite.SlotNetwork.{SlotNetwork, ip_for_slot}
use aerosuite.Snapshot.{SlotLease, is_expired, weight_active, weight_disabled}
use aerosuite.Snapshot.Leases.{read_all, Cache}

-- KEY_BACKEND_WEIGHT_PREFIX, KEY_BACKEND_WEIGHTS_TS
abbrev pub weight_key : Bytes → Bytes
weight_key ip = codes "backend:weight:" ++ ip

abbrev pub weights_ts : Bytes
weights_ts = codes "backend:weights:ts"

abbrev then_cons : ℕ → Option Bytes → Option Bytes
then_cons c none = none
then_cons c (some r) = some (c ∷ r)

-- str::strip_suffix
unfoldable pub strip_suffix : Bytes → Bytes → Option Bytes
strip_suffix suffix [] = if suffix == [] then some [] else none
strip_suffix suffix (c ∷ s) =
    let rest = strip_suffix suffix s in if suffix == (c ∷ s) then some [] else then_cons c rest

abbrev without_suffix : Option Bytes → Option Bytes
without_suffix none = none
without_suffix (some s) = strip_suffix (codes ".weight") s

-- The address in the name of a weight file, `backend-<address>.weight`.
unfoldable pub ip_text : Bytes → Option Bytes
unfolding strip_suffix strip_prefix
ip_text name = without_suffix (strip_prefix (codes "backend-") name)

-- One file of restore_from_redis, and what follows it. A failed GET is no stored value.
unfoldable pub restore_file :
    Bytes → Option Bytes → Prog (Result (Unit {0})) → Prog (Result (Unit {0}))
restore_file name none rest = rest
restore_file name (some ip) rest = send (Call.get (weight_key ip)) >>= λ r. elim r [
  | err e ↦ rest
  | ok o ↦ elim o [ none ↦ rest | some val ↦ send (Call.write_file name (trim val)) >>=? λ _. rest ]
]

unfoldable pub restore_files : List Bytes → Prog (Result (Unit {0}))
unfolding restore_file ip_text
restore_files [] = ret (ok tt)
restore_files (name ∷ names) = restore_file name (ip_text name) (restore_files names)

unfoldable pub restore_from_redis : Prog (Result (Unit {0}))
unfolding restore_files
restore_from_redis = send Call.read_dir >>=? restore_files

-- A file that cannot be read counts as empty.
abbrev pub content_of : Result Bytes → Bytes
content_of (ok s) = s
content_of (err e) = []

-- One file of sync_from_redis once Redis has answered, and what follows it.
unfoldable pub sync_answer :
    Bytes → Prog (Result (Unit {0})) → Result (Option Bytes) → Prog (Result (Unit {0}))
sync_answer name rest (err e) = rest
sync_answer name rest (ok none) = rest
sync_answer name rest (ok (some val)) = send (Call.read_file name) >>= λ disk.
    if trim (content_of disk) == trim val
    then rest
    else (send (Call.write_file name (trim val)) >>=? λ _. rest)

unfoldable pub sync_file :
    Bytes → Option Bytes → Prog (Result (Unit {0})) → Prog (Result (Unit {0}))
unfolding sync_answer
sync_file name none rest = rest
sync_file name (some ip) rest = send (Call.get (weight_key ip)) >>= sync_answer name rest

unfoldable pub sync_files : List Bytes → Prog (Result (Unit {0}))
unfolding sync_file ip_text
sync_files [] = ret (ok tt)
sync_files (name ∷ names) = sync_file name (ip_text name) (sync_files names)

unfoldable pub sync_from_redis : Prog (Result (Unit {0}))
unfolding sync_files
sync_from_redis = send Call.read_dir >>=? sync_files

-- A file that cannot be read is skipped.
unfoldable pub persist_content :
    Bytes → Prog (Result (Unit {0})) → Result Bytes → Prog (Result (Unit {0}))
persist_content ip rest (err e) = rest
persist_content ip rest (ok content) =
    send (Call.set_key (weight_key ip) (trim content)) >>=? λ _. rest

unfoldable pub persist_file :
    Bytes → Option Bytes → Prog (Result (Unit {0})) → Prog (Result (Unit {0}))
unfolding persist_content
persist_file name none rest = rest
persist_file name (some ip) rest = send (Call.read_file name) >>= persist_content ip rest

unfoldable pub persist_files : List Bytes → Prog (Result (Unit {0}))
unfolding persist_file ip_text
persist_files [] = send Call.now_ms >>= λ now.
    send (Call.set_key weights_ts (to_decimal now)) >>=? λ _. ret (ok tt)
persist_files (name ∷ names) = persist_file name (ip_text name) (persist_files names)

unfoldable pub persist : Prog (Result (Unit {0}))
unfolding persist_files
persist = send Call.read_dir >>=? persist_files
