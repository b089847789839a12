-- ===== src/WeightSync/Restore.antt =====
-- The weight files after they were restored from Redis.
use aerosuite.Base.{
  ℕ, ◌≡◌, refl, ◌∙◌, ap, Bytes, Option, none, some, List, [], ◌∷◌, ◌==◌, bytes_eq, bytes_beq,
  bytes_beq_iff, contains, lookup, insert, lookup-insert, trim, arith, Bool-cases, Option-cases,
  inl, inr, is_some, if◌then◌else◌,
}
use aerosuite.Program.{Call, Reply, Result, ok, err, call_failed, permanent, Env, run, Prog}
use aerosuite.WeightSync.{weight_key, ip_text, restore_file, restore_files, restore_from_redis}

-- A host with its weight files, and the string keys of Redis, which another host may have filled.
pub record Host : Type 0 where
  pub files : List (Bytes × Bytes)
  pub keys : List (Bytes × Bytes)
  pub clock : ℕ

abbrev pub names_of : List (Bytes × Bytes) → List Bytes
names_of [] = []
names_of ((name, content) ∷ files) = name ∷ names_of files

abbrev pub found : Option Bytes → Result Bytes
found none = err (call_failed permanent)
found (some s) = ok s

abbrev pub refused : {A : Type 0} → Host → Result A × Host
refused h = (err (call_failed permanent), h)

-- Files, string keys and the clock answer; the other commands are refused.
unfoldable pub serve : (c : Call) → Host → Reply c × Host
serve (Call.get key) h = (ok (lookup key h.keys), h)
serve (Call.set_key key value) h = (ok tt, record h { keys = insert key value h.keys })
serve Call.read_dir h = (ok (names_of h.files), h)
serve (Call.read_file name) h = (found (lookup name h.files), h)
serve (Call.write_file name content) h = (ok tt, record h { files = insert name content h.files })
serve Call.now_ms h = (h.clock, h)
serve Call.instant_now h = (h.clock, h)
serve (Call.print_slot s) h = (tt, h)
serve Call.notify_main h = (tt, h)
serve (Call.del k) h = refused h
serve (Call.zscore z m) h = refused h
serve (Call.zadd z m s) h = refused h
serve (Call.zadd_nx z m s) h = refused h
serve (Call.zrem z m) h = refused h
serve (Call.zrangebyscore z m) h = refused h
serve (Call.zpopmin z) h = refused h
serve (Call.zrange_withscores z) h = refused h
serve (Call.zcard z) h = refused h
serve (Call.eval s) h = refused h
serve (Call.publish m) h = refused h
serve Call.connect h = refused h
serve (Call.write_weight_file ip v) h = refused h
serve Call.read_proc_net_dev h = refused h
serve (Call.terminate i d) h = refused h
serve (Call.set_desired n c) h = refused h
serve (Call.aws_query host service region ps) h = refused h
serve Call.imds_token h = refused h
serve (Call.imds_get t p) h = refused h
serve (Call.sleep_secs n) h = (tt, h)
serve (Call.sleep_ms n) h = (tt, h)
serve (Call.create_dir p) h = refused h
serve (Call.write_text p t) h = refused h
serve Call.ip_addr_show h = refused h
serve Call.read_proc_ip_vs h = refused h
serve (Call.http_get url) h = refused h
serve (Call.set_permissions path mode) h = refused h
serve (Call.hgetall key) h = refused h
serve (Call.open_writer path m) h = refused h
serve (Call.write_chunk b) h = refused h
serve Call.shutdown_writer h = refused h

abbrev pub host : Env
host = record { World = Host; exec = serve }

abbrev trimmed : Option Bytes → Option Bytes
trimmed none = none
trimmed (some val) = some (trim val)

abbrev value_of : List (Bytes × Bytes) → Option Bytes → Option Bytes
value_of keys none = none
value_of keys (some ip) = trimmed (lookup (weight_key ip) keys)

-- The value that Redis holds for a weight file, trimmed.
unfoldable pub stored : List (Bytes × Bytes) → Bytes → Option Bytes
unfolding ip_text
stored keys name = value_of keys (ip_text name)

abbrev put : Bytes → Option Bytes → List (Bytes × Bytes) → List (Bytes × Bytes)
put name none files = files
put name (some v) files = insert name v files

abbrev put_all : List (Bytes × Bytes) → List Bytes → List (Bytes × Bytes) → List (Bytes × Bytes)
put_all keys [] files = files
put_all keys (name ∷ names) files = put_all keys names (put name (stored keys name) files)

run-restore_file :
    (name : Bytes) (o : Option Bytes) (rest : Prog (Result (Unit {0}))) (h : Host)
    → run host (restore_file name o rest) h
      ≡ run host rest (record h { files = put name (value_of h.keys o) h.files })
unfolding restore_file run serve
run-restore_file name none rest h = refl
run-restore_file name (some ip) rest h = elim (Option-cases (lookup (weight_key ip) h.keys)) [
  | inl e ↦ rw (e, run, serve) refl
  | inr (v, e) ↦ rw (e, run, serve) refl
]

run-restore_files :
    (names : List Bytes) (h : Host)
    → run host (restore_files names) h ≡ (ok tt, record h { files = put_all h.keys names h.files })
unfolding restore_files run stored
run-restore_files [] h = refl
run-restore_files (name ∷ names) h =
    run-restore_file name (ip_text name) (restore_files names) h
    ∙ run-restore_files names (record h { files = put name (stored h.keys name) h.files })

abbrev pub value_or : Option Bytes → Option Bytes → Option Bytes
value_or (some v) old = some v
value_or none old = old

lookup-put :
    (name n : Bytes) (o : Option Bytes) (files : List (Bytes × Bytes))
    → lookup n (put name o files)
      ≡ (if name == n then value_or o (lookup n files) else lookup n files)
lookup-put name n none files = ground arith
lookup-put name n (some v) files = lookup-insert name n v files

value_or_idem : (o old : Option Bytes) → value_or o (value_or o old) ≡ value_or o old
value_or_idem none old = refl
value_or_idem (some v) old = refl

lookup-put_all :
    (keys : List (Bytes × Bytes)) (names : List Bytes) (files : List (Bytes × Bytes)) (n : Bytes)
    → lookup n (put_all keys names files)
      ≡ (if contains names n then value_or (stored keys n) (lookup n files) else lookup n files)
unfolding contains
lookup-put_all keys [] files n = refl
lookup-put_all keys (name ∷ names) files n = elim (Bool-cases (bytes_beq name n)) [
  | inl e ↦ ground (
    arith,
    e,
    ap (stored keys) ((bytes_beq_iff name n).0 e),
    lookup-put_all keys names (put name (stored keys name) files) n,
    lookup-put name n (stored keys name) files,
    value_or_idem (stored keys n) (lookup n files),
  )
  | inr e ↦ ground (
    arith,
    e,
    lookup-put_all keys names (put name (stored keys name) files) n,
    lookup-put name n (stored keys name) files,
  )
]

pub contains-names_of :
    (files : List (Bytes × Bytes)) (n : Bytes)
    → contains (names_of files) n ≡ is_some (lookup n files)
unfolding contains lookup
contains-names_of [] n = refl
contains-names_of ((m, v) ∷ files) n = ground (arith, contains-names_of files n)

-- On a host whose files and Redis keys can be read and written, restore_from_redis succeeds and changes
-- only files: a weight file for which Redis holds a value has that value, trimmed, every other file is as
-- it was, and there are no new files.
pub restore_from_redis-stored :
    (h : Host)
    → ((run host restore_from_redis h).0 ≡ ok tt)
      × ((run host restore_from_redis h).1.keys ≡ h.keys)
      × ((n : Bytes)
          → lookup n (run host restore_from_redis h).1.files ≡ (
              if is_some (lookup n h.files)
              then value_or (stored h.keys n) (lookup n h.files)
              else none))
unfolding restore_from_redis run serve
restore_from_redis-stored h = rw (run-restore_files (names_of h.files) h) (
  refl,
  refl,
  λ n.
      ground
        (arith, lookup-put_all h.keys (names_of h.files) h.files n, contains-names_of h.files n),
)
