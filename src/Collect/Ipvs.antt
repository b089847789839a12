-- ===== src/Collect/Ipvs.antt =====
-- aeroscale/src/snapshot/ipvs.rs: the real servers in /proc/net/ip_vs.
pub mod Hex
use aerosuite.Base.{
  ℕ, is_space, u32_mod, parse_unsigned, trim, sort_by, ◌+◌, ◌-◌, ◌*◌, Bytes, codes, Bool, true,
  ◌&&◌, Option, none, some, List, [], ◌∷◌, nat_beq, leb, ltb, if◌then◌else◌, strip_prefix, is_some,
  zero, suc, ◌/◌, ◌%◌, ◌^◌, ◌≤◌, ◌<◌, ◌≡◌, refl, sym, ap, ◌∙◌, subst, false, not, ◌||◌, ◌++◌, map,
  length, strip_prefix-append, arith, Bool-cases, Option-cases, inl, inr, ◌≢◌, ◌⊎◌, ◌==◌, All,
}
use aerosuite.Program.{Call, Prog, ret, send, Result, ok, err, ◌>>=◌}
use aerosuite.Snapshot.{IpvsBackend}
use aerosuite.Scaler.{lines}
use aerosuite.Xml.{split_first}

abbrev starts_blank : Bytes → Bool
starts_blank [] = true
starts_blank (c ∷ s) = is_space c

abbrev onto_first : ℕ → List Bytes → List Bytes
onto_first c [] = (c ∷ []) ∷ []
onto_first c (w ∷ ws) = (c ∷ w) ∷ ws

-- str::split_whitespace
unfoldable pub words : Bytes → List Bytes
unfolding is_space
words [] = []
words (c ∷ s) =
    let rest = words s in
    if is_space c then rest else if starts_blank s then (c ∷ []) ∷ rest else onto_first c rest

unfoldable pub hex_digit : ℕ → Option ℕ
hex_digit c =
    if leb b'0' c && leb c b'9'
    then some (c - b'0')
    else if leb b'A' c && leb c b'F'
    then some (c - b'A' + 10)
    else if leb b'a' c && leb c b'f'
    then some (c - b'a' + 10)
    else none

abbrev pub within_u32 : ℕ → Option ℕ
within_u32 n = if ltb n u32_mod then some n else none

abbrev pub next_value : ℕ → Option ℕ → Option ℕ
next_value acc none = none
next_value acc (some d) = within_u32 (acc * 16 + d)

-- The hexadecimal digits of a text after `acc`, `none` at another byte or past 32 bits.
unfoldable pub hex_value : Option ℕ → Bytes → Option ℕ
unfolding hex_digit
hex_value none s = none
hex_value (some acc) [] = some acc
hex_value (some acc) (c ∷ s) = hex_value (next_value acc (hex_digit c)) s

abbrev hex_digits : Bytes → Option ℕ
hex_digits [] = none
hex_digits (c ∷ s) = hex_value (some 0) (c ∷ s)

-- u32::from_str_radix(hex, 16): an optional `+`, then digits. An address is its number.
unfoldable pub parse_hex_ip : Bytes → Option ℕ
unfolding hex_value
parse_hex_ip [] = none
parse_hex_ip (c ∷ s) = if nat_beq c b'+' then hex_digits s else hex_digits (c ∷ s)

abbrev number_or_zero : Option ℕ → ℕ
number_or_zero none = 0
number_or_zero (some n) = n

abbrev backend_at : Option ℕ → Bytes → Bytes → Option IpvsBackend
backend_at none active inactive = none
backend_at (some ip) active inactive = some (record {
  ip = ip;
  active_connections = number_or_zero (parse_unsigned u32_mod active);
  inactive_connections = number_or_zero (parse_unsigned u32_mod inactive);
})

abbrev address_before : Option (Bytes × Bytes) → Option ℕ
address_before none = none
address_before (some (hex_ip, port)) = parse_hex_ip hex_ip

-- At least six fields, of which the second is the address, the fifth and the sixth the connections.
unfoldable pub backend_of_fields : List Bytes → Option IpvsBackend
unfolding parse_hex_ip split_first
backend_of_fields (arrow ∷ address ∷ forward ∷ weight ∷ active ∷ inactive ∷ rest) =
    backend_at (address_before (split_first (codes ":") address)) active inactive
backend_of_fields _ = none

-- A line that does not name a real server is skipped.
unfoldable pub backend_of_line : Bytes → Option IpvsBackend
unfolding backend_of_fields words strip_prefix
backend_of_line line =
    if is_some (strip_prefix (codes "->") (trim line))
    then backend_of_fields (words (trim line))
    else none

abbrev with_backend : Option IpvsBackend → List IpvsBackend → List IpvsBackend
with_backend none bs = bs
with_backend (some b) bs = b ∷ bs

unfoldable pub backends_of : List Bytes → List IpvsBackend
unfolding backend_of_line
backends_of [] = []
backends_of (line ∷ rest) = with_backend (backend_of_line line) (backends_of rest)

abbrev pub by_ip : IpvsBackend → IpvsBackend → Bool
by_ip a b = leb a.ip b.ip

unfoldable pub parse : Bytes → List IpvsBackend
unfolding backends_of
parse content = sort_by by_ip (backends_of (lines content))

-- A file that cannot be read is an empty table.
abbrev pub table_of : Result Bytes → List IpvsBackend
table_of (ok content) = parse content
table_of (err e) = []

unfoldable pub read_all : Prog (Result (List IpvsBackend))
unfolding parse
read_all = send Call.read_proc_ip_vs >>= λ r. ret (ok (table_of r))
