-- ===== src/SlotNetwork/Imds.antt =====
-- aerocore/src/slot_network.rs: SlotNetwork::from_imds, which reads the network from the instance metadata.
use aerosuite.Base.{
  ℕ, u32_mod, parse_unsigned, trim, is_empty, bytes_eq, Bytes, codes, Option, none, some, List, [],
  ◌∷◌, ◌++◌, nat_beq, if◌then◌else◌, ◌==◌,
}
use aerosuite.Program.{
  Call, Prog, ret, send, Result, ok, err, bad_argument, missing_field, ◌>>=◌, ◌>>=?◌,
}
use aerosuite.Xml.{split_first}
use aerosuite.Aws.{fetch_imds_path, required}
use aerosuite.Scaler.{lines}
use aerosuite.WeightSync.Startup.{parse_ipv4}
use aerosuite.SlotNetwork.{SlotNetwork}

-- str::trim_end_matches('/')
unfoldable pub trim_slashes : Bytes → Bytes
trim_slashes [] = []
trim_slashes (c ∷ s) = elim (trim_slashes s) [
  | [] ↦ if nat_beq c b'/' then [] else c ∷ []
  | d ∷ r ↦ c ∷ d ∷ r
]

abbrev pub mac_of : Bytes → Bytes
mac_of line = trim (trim_slashes line)

abbrev pub macs_path : Bytes → Bytes → Bytes
macs_path mac field = codes "network/interfaces/macs/" ++ (mac ++ (codes "/" ++ field))

abbrev pub text_or_empty : Result Bytes → Bytes
text_or_empty (ok s) = s
text_or_empty (err e) = []

-- The first interface with device number 1; one whose number cannot be read is passed over.
unfoldable pub find_eth1 : Bytes → List Bytes → Prog (Option Bytes)
unfolding fetch_imds_path trim_slashes
find_eth1 token [] = ret none
find_eth1 token (line ∷ rest) =
    let others = find_eth1 token rest in
    if is_empty (mac_of line)
    then others
    else (fetch_imds_path token (macs_path (mac_of line) (codes "device-number")) >>= λ dev.
        if trim (text_or_empty dev) == codes "1" then ret (some (mac_of line)) else others)

-- "172.16.32.0/26"
unfoldable pub parse_cidr : Bytes → Prog (Result (ℕ × ℕ))
unfolding split_first parse_ipv4
parse_cidr cidr =
    required bad_argument (split_first (codes "/") cidr) >>=? λ (base_str, prefix_str).
    required bad_argument (parse_ipv4 base_str) >>=? λ base.
    required bad_argument (parse_unsigned 256 prefix_str) >>=? λ prefix_len.
    ret (ok (base, prefix_len))

unfoldable pub from_imds : Prog (Result SlotNetwork)
unfolding find_eth1 parse_cidr
from_imds = send Call.imds_token >>=? λ token.
    fetch_imds_path token (codes "network/interfaces/macs/") >>=? λ macs_raw.
    find_eth1 token (lines macs_raw) >>= λ eth1_mac. required missing_field eth1_mac >>=? λ mac.
    fetch_imds_path token (macs_path mac (codes "subnet-ipv4-cidr-block")) >>=? λ cidr.
    parse_cidr (trim cidr) >>=? λ (base, prefix_len).
    fetch_imds_path token (codes "tags/instance/aeroftp-slot-offset") >>=? λ offset_raw.
    required bad_argument (parse_unsigned u32_mod (trim offset_raw)) >>=? λ offset.
    ret (ok (record { base = base; offset = offset; prefix_len = prefix_len }))
