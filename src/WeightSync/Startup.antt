-- ===== src/WeightSync/Startup.antt =====
-- The choice at startup, and the weights from the leases.
use aerosuite.Base.{
  ℕ, ◌+◌, ◌*◌, ◌-◌, ◌/◌, Bytes, Option, none, some, List, [], ◌∷◌, nat_eq, nat_beq, ltb, Bool,
  false, contains, length, parse_unsigned, u64_mod, if◌then◌else◌, ◌&&◌,
}
use aerosuite.Program.{Call, Prog, ret, send, Result, ok, err, ◌>>=◌, ◌>>=?◌}
use aerosuite.SlotNetwork.{SlotNetwork, ip_for_slot}
use aerosuite.Snapshot.{SlotLease, is_expired, weight_active, weight_disabled}
use aerosuite.Snapshot.Leases.{read_all}
use aerosuite.WeightSync.{weights_ts, ip_text, restore_from_redis}

abbrev onto_first : ℕ → List Bytes → List Bytes
onto_first c [] = (c ∷ []) ∷ []
onto_first c (part ∷ parts) = (c ∷ part) ∷ parts

-- The parts between the dots.
unfoldable pub split_dots : Bytes → List Bytes
split_dots [] = [] ∷ []
split_dots (c ∷ s) =
    let rest = split_dots s in if nat_beq c 46 then [] ∷ rest else onto_first c rest

-- A number below 256 without a sign and without leading zeros.
unfoldable pub octet : Bytes → Option ℕ
octet [] = none
octet (c ∷ s) =
    if nat_beq c 43
    then none
    else if nat_beq c 48 && ltb 0 (length s)
    then none
    else parse_unsigned 256 (c ∷ s)

abbrev of_octets : List (Option ℕ) → Option ℕ
of_octets (some a ∷ some b ∷ some c ∷ some d ∷ []) = some (((a * 256 + b) * 256 + c) * 256 + d)
of_octets _ = none

abbrev octets : List Bytes → List (Option ℕ)
octets [] = []
octets (part ∷ parts) = octet part ∷ octets parts

-- Ipv4Addr::from_str
unfoldable pub parse_ipv4 : Bytes → Option ℕ
unfolding split_dots octet
parse_ipv4 s = of_octets (octets (split_dots s))

-- The addresses of the leases that have not expired; each is_expired reads the clock.
unfoldable pub live_ips : SlotNetwork → List SlotLease → Prog (List ℕ)
live_ips net [] = ret []
live_ips net (l ∷ ls) = send Call.now_ms >>= λ now. live_ips net ls >>= λ more.
    ret (if is_expired l now then more else ip_for_slot net l.slot ∷ more)

abbrev weight_of : List ℕ → ℕ → Bytes
weight_of live ip = if contains live ip then weight_active else weight_disabled

abbrev address_of : Option Bytes → Option ℕ
address_of none = none
address_of (some ip) = parse_ipv4 ip

unfoldable pub compute_file :
    List ℕ → Bytes → Option ℕ → Prog (Result (Unit {0})) → Prog (Result (Unit {0}))
compute_file live name none rest = rest
compute_file live name (some ip) rest =
    send (Call.write_file name (weight_of live ip)) >>=? λ _. rest

unfoldable pub compute_files : List ℕ → List Bytes → Prog (Result (Unit {0}))
unfolding compute_file ip_text parse_ipv4
compute_files live [] = ret (ok tt)
compute_files live (name ∷ names) =
    compute_file live name (address_of (ip_text name)) (compute_files live names)

-- A failed reading of the leases counts as no leases.
abbrev leases_or_none : Result (List SlotLease) → List SlotLease
leases_or_none (ok ls) = ls
leases_or_none (err e) = []

unfoldable pub compute_from_leases : SlotNetwork → Prog (Result (Unit {0}))
unfolding read_all live_ips compute_files
compute_from_leases net = read_all [] >>= λ r.
    live_ips net (leases_or_none r.0) >>= λ live. send Call.read_dir >>=? compute_files live

-- The timestamp that is stored, if it can be read and parsed.
abbrev stored_ms : Result (Option Bytes) → Option ℕ
stored_ms (ok (some s)) = parse_unsigned u64_mod s
stored_ms (ok none) = none
stored_ms (err e) = none

abbrev is_fresh : ℕ → ℕ → Option ℕ → Bool
is_fresh now ttl_secs none = false
is_fresh now ttl_secs (some stored) = ltb ((now - stored) / 1000) ttl_secs

-- weight_sync::init
unfoldable pub init_weights : SlotNetwork → ℕ → Prog (Result (Unit {0}))
unfolding restore_from_redis compute_from_leases
init_weights net ttl_secs = send Call.now_ms >>= λ now. send (Call.get weights_ts) >>= λ ts.
    if is_fresh now ttl_secs (stored_ms ts) then restore_from_redis else compute_from_leases net
