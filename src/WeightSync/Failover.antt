-- ===== src/WeightSync/Failover.antt =====
-- The weights of one host on another one: persist there, restore here.
use aerosuite.Base.{
  ◌≡◌, refl, ◌∙◌, ap, Bytes, true, false, Option, none, some, List, [], ◌∷◌, ◌==◌, bytes_eq,
  bytes_beq, bytes_beq_iff, contains, lookup, insert, lookup-insert, trim, to_decimal, arith,
  Bool-cases, Option-cases, inl, inr, is_some, if◌then◌else◌,
}
use aerosuite.Program.{Result, ok, run, Prog}
use aerosuite.WeightSync.{
  weight_key, weights_ts, ip_text, restore_from_redis, persist_file, persist_files, persist,
}
use aerosuite.WeightSync.Names.{ip_text-injective}
use aerosuite.WeightSync.Restore.{
  Host, host, serve, names_of, stored, contains-names_of, restore_from_redis-stored,
}

abbrev keep : Option Bytes → Option Bytes → List (Bytes × Bytes) → List (Bytes × Bytes)
keep none o keys = keys
keep (some ip) none keys = keys
keep (some ip) (some content) keys = insert (weight_key ip) (trim content) keys

abbrev keep_all : List (Bytes × Bytes) → List Bytes → List (Bytes × Bytes) → List (Bytes × Bytes)
keep_all files [] keys = keys
keep_all files (name ∷ names) keys =
    keep_all files names (keep (ip_text name) (lookup name files) keys)

run-persist_file :
    (name : Bytes) (o : Option Bytes) (rest : Prog (Result (Unit {0}))) (h : Host)
    → run host (persist_file name o rest) h
      ≡ run host rest (record h { keys = keep o (lookup name h.files) h.keys })
unfolding persist_file run serve
run-persist_file name none rest h = refl
run-persist_file name (some ip) rest h = elim (Option-cases (lookup name h.files)) [
  | inl e ↦ rw (e, run, serve) refl
  | inr (v, e) ↦ rw (e, run, serve) refl
]

run-persist_files :
    (names : List Bytes) (h : Host)
    → run host (persist_files names) h ≡ (
      ok tt,
      record h { keys = insert weights_ts (to_decimal h.clock) (keep_all h.files names h.keys) },
    )
unfolding persist_files run serve
run-persist_files [] h = refl
run-persist_files (name ∷ names) h =
    run-persist_file name (ip_text name) (persist_files names) h
    ∙ run-persist_files names (record h { keys = keep (ip_text name) (lookup name h.files) h.keys })

weight_key-beq : (i j : Bytes) → bytes_beq (weight_key i) (weight_key j) ≡ bytes_beq i j
unfolding bytes_beq
weight_key-beq i j = refl

weights_ts-beq : (i : Bytes) → bytes_beq weights_ts (weight_key i) ≡ false
unfolding bytes_beq
weights_ts-beq i = refl

module _ (files : List (Bytes × Bytes)) (n ip content : Bytes) (named : ip_text n ≡ some ip)
    (e : lookup n files ≡ some content) where
  distinct_ips :
      (name ip' : Bytes)
      → ip_text name ≡ some ip'
      → bytes_beq name n ≡ false
      → bytes_beq ip' ip ≡ false
  distinct_ips name ip' p d = elim (Bool-cases (bytes_beq ip' ip)) [
    | inl g ↦ ground (
      arith,
      d,
      (bytes_beq_iff name n).1
          (ip_text-injective name n ip (p ∙ ap some ((bytes_beq_iff ip' ip).0 g)) named),
    )
    | inr g ↦ g
  ]

  lookup-keep_other :
      (name : Bytes) (o : Option Bytes) (keys : List (Bytes × Bytes))
      → ip_text name ≡ o
      → bytes_beq name n ≡ false
      → lookup (weight_key ip) (keep o (lookup name files) keys) ≡ lookup (weight_key ip) keys
  lookup-keep_other name none keys p d = refl
  lookup-keep_other name (some ip') keys p d = elim (Option-cases (lookup name files)) [
    | inl q ↦ rw q refl
    | inr (v, q) ↦ rw q (
        lookup-insert (weight_key ip') (weight_key ip) (trim v) keys
        ∙ ground (arith, weight_key-beq ip' ip, distinct_ips name ip' p d))
  ]

  lookup-keep :
      (name : Bytes) (keys : List (Bytes × Bytes))
      → lookup (weight_key ip) (keep (ip_text name) (lookup name files) keys)
        ≡ (if name == n then some (trim content) else lookup (weight_key ip) keys)
  lookup-keep name keys = elim (Bool-cases (bytes_beq name n)) [
    | inl h ↦
        rw ((bytes_beq_iff name n).0 h, named, e)
          (ground (
            arith,
            lookup-insert (weight_key ip) (weight_key ip) (trim content) keys,
            (bytes_beq_iff (weight_key ip) (weight_key ip)).1 refl,
            (bytes_beq_iff n n).1 refl,
          ))
    | inr h ↦ rw h (lookup-keep_other name (ip_text name) keys refl h)
  ]

  lookup-keep_all :
      (names : List Bytes) (keys : List (Bytes × Bytes))
      → lookup (weight_key ip) (keep_all files names keys)
        ≡ (if contains names n then some (trim content) else lookup (weight_key ip) keys)
  unfolding contains
  lookup-keep_all [] keys = refl
  lookup-keep_all (name ∷ names) keys = ground (
    arith,
    lookup-keep_all names (keep (ip_text name) (lookup name files) keys),
    lookup-keep name keys,
  )

lookup-persist :
    (a : Host) (n ip content : Bytes)
    → ip_text n ≡ some ip
    → lookup n a.files ≡ some content
    → lookup (weight_key ip) (run host persist a).1.keys ≡ some (trim content)
unfolding persist run serve
lookup-persist a n ip content named e =
    let keys' = keep_all a.files (names_of a.files) a.keys in
    rw (run-persist_files (names_of a.files) a) (
      ground (
        arith,
        lookup-insert weights_ts (weight_key ip) (to_decimal a.clock) keys',
        weights_ts-beq ip,
        lookup-keep_all a.files n ip content named e (names_of a.files) a.keys,
        contains-names_of a.files n,
        e,
      ))

-- On hosts whose files and Redis keys can be read and written: after one host has persisted its weights,
-- restore_from_redis on a host with the same keys gives each weight file that both hosts have the content
-- that it has on the first host, trimmed (first when it is stored, and again when it is written).
pub restore_from_redis-persist :
    (a b : Host) (n ip content : Bytes)
    → ip_text n ≡ some ip
    → lookup n a.files ≡ some content
    → is_some (lookup n b.files) ≡ true
    → lookup n
        (run host restore_from_redis (record b { keys = (run host persist a).1.keys })).1.files
      ≡ some (trim (trim content))
unfolding stored
restore_from_redis-persist a b n ip content named e here =
    let keys' = (run host persist a).1.keys in
    (restore_from_redis-stored (record b { keys = keys' })).2 n
    ∙ rw (here, named) (rw (lookup-persist a n ip content named e) refl)
