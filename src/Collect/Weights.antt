-- ===== src/Collect/Weights.antt =====
-- aeroscale/src/snapshot/weights.rs: the weight files of the directory.
use aerosuite.Base.{ℕ, sort_by, Bytes, Bool, Option, none, some, List, [], ◌∷◌, leb, trim}
use aerosuite.Program.{Call, Prog, ret, send, Result, ok, err, ◌>>=◌, ◌>>=?◌}
use aerosuite.Snapshot.{WeightEntry, from_weight_str}
use aerosuite.WeightSync.{ip_text}
use aerosuite.WeightSync.Startup.{parse_ipv4}

abbrev with_entry : WeightEntry → Result (List WeightEntry) → Result (List WeightEntry)
with_entry w (err e) = err e
with_entry w (ok ws) = ok (w ∷ ws)

abbrev pub parsed_ip : Option Bytes → Option ℕ
parsed_ip none = none
parsed_ip (some s) = parse_ipv4 s

-- The address in a file's name; other files are skipped.
unfoldable pub file_ip : Bytes → Option ℕ
unfolding ip_text parse_ipv4
file_ip name = parsed_ip (ip_text name)

-- The loop over the directory; a file that cannot be read ends it with the error.
unfoldable pub read_entries : List Bytes → Prog (Result (List WeightEntry))
unfolding file_ip
read_entries [] = ret (ok [])
read_entries (name ∷ names) = elim (file_ip name) [
  | none ↦ read_entries names
  | some ip ↦ send (Call.read_file name) >>=? λ raw. read_entries names >>= λ rest.
      ret (with_entry (record { ip = ip; state = from_weight_str (trim raw) }) rest)
]

abbrev pub by_ip : WeightEntry → WeightEntry → Bool
by_ip a b = leb a.ip b.ip

unfoldable pub read_all : Prog (Result (List WeightEntry))
unfolding read_entries
read_all = send Call.read_dir >>=? λ names.
    read_entries names >>=? λ entries. ret (ok (sort_by by_ip entries))
