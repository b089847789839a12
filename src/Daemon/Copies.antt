-- ===== src/Daemon/Copies.antt =====
-- What a round copies between Redis and the weight files: the values that it was given, as it was given them.
use aerosuite.Base.{
  ℕ, ◌≡◌, ◌⊎◌, refl, Bytes, Bool, true, false, Option, none, some, List, [], ◌∷◌, ◌==◌, bytes_eq,
  inl, inr, trim, to_decimal,
}
use aerosuite.Program.{Call, Reply, Prog, Result, ok, err, on_ok}
use aerosuite.Program.Observed.{Observes-if, Follows, Follows-bind, Follows-on_ok}
use aerosuite.WeightSync.{
  weight_key, weights_ts, ip_text, content_of, sync_answer, sync_file, sync_files, sync_from_redis,
  persist_content, persist_file, persist_files, persist,
}
use aerosuite.Daemon.{sync_if_backup, persist_if_master}
use aerosuite.Daemon.Passive.{is_passive, Passive}

-- The answers of `ip addr show`, the last one first; the key and the value of the last GET, and the name and
-- the content of the last file, where they were answered with one.
pub record Seen : Type 0 where
  pub answers : List (Result (Bool × Bytes))
  pub got : Option (Bytes × Bytes)
  pub file : Option (Bytes × Bytes)

abbrev pub nothing_yet : Seen
nothing_yet = record { answers = []; got = none; file = none }

abbrev pub stored : Bytes → Result (Option Bytes) → Option (Bytes × Bytes)
stored key (err e) = none
stored key (ok none) = none
stored key (ok (some val)) = some (key, val)

abbrev pub content_in : Bytes → Result Bytes → Option (Bytes × Bytes)
content_in name (err e) = none
content_in name (ok raw) = some (name, raw)

unfoldable pub seen_after : Seen → (c : Call) → Reply c → Seen
seen_after t Call.ip_addr_show r = record t { answers = r ∷ t.answers }
seen_after t (Call.get key) r = record t { got = stored key r }
seen_after t (Call.read_file name) r = record t { file = content_in name r }
seen_after t _ r = t

-- A weight file gets the trimmed value that Redis has just given for its address.
abbrev pub IsCopy : Seen → Call → Type 0
IsCopy t (Call.write_file name content) =
    (ip : Bytes) × (val : Bytes) × (ip_text name ≡ some ip)
    × (t.got ≡ some (weight_key ip, val))
    × (content ≡ trim val)
IsCopy t _ = ⊥

-- The key of an address gets the trimmed content that its weight file has just shown, and the time stamp a
-- number.
abbrev pub IsPersist : Seen → Call → Type 0
IsPersist t (Call.set_key key value) =
    ((now : ℕ) × (key ≡ weights_ts) × (value ≡ to_decimal now))
    ⊎ ((name : Bytes) × (ip : Bytes) × (raw : Bytes) × (ip_text name ≡ some ip)
        × (t.file ≡ some (name, raw))
        × (key ≡ weight_key ip)
        × (value ≡ trim raw))
IsPersist t _ = ⊥

abbrev pub ReadsOrCopies : Seen → Call → Type 0
ReadsOrCopies t c = Passive c ⊎ IsCopy t c

abbrev pub ReadsOrPersists : Seen → Call → Type 0
ReadsOrPersists t c = Passive c ⊎ IsPersist t c

abbrev Copying : {A : Type 0} → Seen → Prog A → Type 0
Copying t m = Follows seen_after ReadsOrCopies t m

abbrev Persisting : {A : Type 0} → Seen → Prog A → Type 0
Persisting t m = Follows seen_after ReadsOrPersists t m

sync_answer-Copying :
    (name ip : Bytes) (rest : Prog (Result (Unit {0}))) (r : Result (Option Bytes)) (t : Seen)
    → ip_text name ≡ some ip
    → t.got ≡ stored (weight_key ip) r
    → ((u : Seen) → Copying u rest)
    → Copying t (sync_answer name rest r)
unfolding sync_answer Passive is_passive seen_after
sync_answer-Copying name ip rest (err e) t n g h = h t
sync_answer-Copying name ip rest (ok none) t n g h = h t
sync_answer-Copying name ip rest (ok (some val)) t n g h = (
  inl refl,
  λ disk.
      Observes-if seen_after ReadsOrCopies (λ u a. Unit {0}) _ (trim (content_of disk) == trim val)
        _ _ (λ e. h _)
        (λ e. (
          inr (ip, val, n, g, refl),
          λ r. Follows-on_ok seen_after ReadsOrCopies _ _ r (λ u. h _),
        )),
)

sync_file-Copying :
    (name : Bytes) (o : Option Bytes) (rest : Prog (Result (Unit {0}))) (t : Seen)
    → ip_text name ≡ o
    → ((u : Seen) → Copying u rest)
    → Copying t (sync_file name o rest)
unfolding sync_file Passive is_passive seen_after
sync_file-Copying name none rest t n h = h t
sync_file-Copying name (some ip) rest t n h = (
  inl refl,
  λ r. unfold Passive is_passive seen_after in sync_answer-Copying name ip rest r _ n refl h,
)

sync_files-Copying : (names : List Bytes) (t : Seen) → Copying t (sync_files names)
unfolding sync_files
sync_files-Copying [] t = tt
sync_files-Copying (name ∷ names) t =
    sync_file-Copying name (ip_text name) (sync_files names) t refl (sync_files-Copying names)

pub sync_if_backup-Copying : (master : Bool) (t : Seen) → Copying t (sync_if_backup master)
unfolding sync_if_backup sync_from_redis Passive is_passive seen_after
sync_if_backup-Copying true t = tt
sync_if_backup-Copying false t = (
  inl refl,
  λ r.
      unfold Passive is_passive seen_after in
      Follows-bind seen_after ReadsOrCopies t (on_ok sync_files r) _
        (Follows-on_ok seen_after ReadsOrCopies t sync_files r
          (λ names. sync_files-Copying names t))
        (λ u a. tt),
)

persist_content-Persisting :
    (name ip : Bytes) (rest : Prog (Result (Unit {0}))) (r : Result Bytes) (t : Seen)
    → ip_text name ≡ some ip
    → t.file ≡ content_in name r
    → ((u : Seen) → Persisting u rest)
    → Persisting t (persist_content ip rest r)
unfolding persist_content seen_after
persist_content-Persisting name ip rest (err e) t n g h = h t
persist_content-Persisting name ip rest (ok raw) t n g h = (
  inr (inr (name, ip, raw, n, g, refl, refl)),
  λ r. Follows-on_ok seen_after ReadsOrPersists _ _ r (λ u. h _),
)

persist_file-Persisting :
    (name : Bytes) (o : Option Bytes) (rest : Prog (Result (Unit {0}))) (t : Seen)
    → ip_text name ≡ o
    → ((u : Seen) → Persisting u rest)
    → Persisting t (persist_file name o rest)
unfolding persist_file Passive is_passive seen_after
persist_file-Persisting name none rest t n h = h t
persist_file-Persisting name (some ip) rest t n h = (
  inl refl,
  λ r. unfold Passive is_passive seen_after in persist_content-Persisting name ip rest r _ n refl h,
)

persist_files-Persisting : (names : List Bytes) (t : Seen) → Persisting t (persist_files names)
unfolding persist_files Passive is_passive seen_after
persist_files-Persisting [] t = (
  inl refl,
  λ now.
      (inr (inl (now, refl, refl)), λ r. Follows-on_ok seen_after ReadsOrPersists _ _ r (λ u. tt)),
)
persist_files-Persisting (name ∷ names) t =
    unfold Passive is_passive seen_after in
    persist_file-Persisting name (ip_text name) (persist_files names) t refl
      (persist_files-Persisting names)

pub persist_if_master-Persisting :
    (master : Bool) (t : Seen) → Persisting t (persist_if_master master)
unfolding persist_if_master persist Passive is_passive seen_after
persist_if_master-Persisting false t = tt
persist_if_master-Persisting true t = (
  inl refl,
  λ r.
      unfold Passive is_passive seen_after in
      Follows-bind seen_after ReadsOrPersists t (on_ok persist_files r) _
        (Follows-on_ok seen_after ReadsOrPersists t persist_files r
          (λ names. persist_files-Persisting names t))
        (λ u a. tt),
)
