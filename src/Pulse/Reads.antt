-- ===== src/Pulse/Reads.antt =====
-- aeropulse/src/main.rs, resolve_instance_data: it only reads from the instance metadata.
use aerosuite.Base.{
  Bytes, codes, Option, none, some, List, [], ◌∷◌, sort_by, parse_unsigned, u32_mod, text_lines,
  trim, is_empty, bytes_eq, ◌++◌, ◌==◌,
}
use aerosuite.Program.{
  missing_field, ◌>>=?◌, Call, Prog, Result, Error, Emits, ret, err, bad_argument, ok,
}
use aerosuite.Program.Laws.{Emits-bind, Emits-then, Emits-on_ok, Emits-if}
use aerosuite.SlotNetwork.Imds.{text_or_empty, find_eth1, mac_of, macs_path, parse_cidr, from_imds}
use aerosuite.Xml.{split_first}
use aerosuite.Aws.{fetch_imds_path, required}
use aerosuite.Scaler.{lines}
use aerosuite.WeightSync.Startup.{parse_ipv4}
use aerosuite.Pulse.{master, backup, IfaceInfo, Role}
use aerosuite.Pulse.Resolve.{
  first_line, by_device, fetch_imds_tag, role_of, fetch_interface, fetch_interfaces,
  fetch_all_interfaces, first_three, resolve_rest, resolve_instance_data, macs_of,
}

abbrev pub ReadsImds : Call → Type 0
ReadsImds Call.imds_token = Unit {0}
ReadsImds (Call.imds_get token path) = Unit {0}
ReadsImds c = ⊥

abbrev Only : {A : Type 0} → Prog A → Type 0
Only m = Emits ReadsImds m

fetch_imds_path-ReadsImds : (token path : Bytes) → Only (fetch_imds_path token path)
unfolding fetch_imds_path
fetch_imds_path-ReadsImds token path = (tt, λ r. Emits-on_ok ReadsImds _ r (λ v. tt))

required-ReadsImds : {A : Type 0} (e : Error) (o : Option A) → Only (required e o)
required-ReadsImds e none = tt
required-ReadsImds e (some a) = tt

-- A reading of the metadata, and what follows it.
after_path :
    {B : Type 0} (token path : Bytes) (f : Bytes → Prog (Result B))
    → ((v : Bytes) → Only (f v))
    → Only (fetch_imds_path token path >>=? f)
after_path token path f h =
    Emits-then ReadsImds (fetch_imds_path token path) f (fetch_imds_path-ReadsImds token path) h

after_required :
    {A B : Type 0} (e : Error) (o : Option A) (f : A → Prog (Result B))
    → ((a : A) → Only (f a))
    → Only (required e o >>=? f)
after_required e o f h = Emits-then ReadsImds (required e o) f (required-ReadsImds e o) h

after_tag :
    {B : Type 0} (token tag_key : Bytes) (f : Bytes → Prog (Result B))
    → ((v : Bytes) → Only (f v))
    → Only (fetch_imds_tag token tag_key >>=? f)
unfolding fetch_imds_tag
after_tag token tag_key f h = after_path token (codes "tags/instance/" ++ tag_key) f h

fetch_interface-ReadsImds : (token mac : Bytes) → Only (fetch_interface token mac)
unfolding fetch_interface
fetch_interface-ReadsImds token mac =
    after_path token (macs_path mac (codes "device-number")) _ (λ number.
      after_required bad_argument (parse_unsigned u32_mod number) _ (λ device_number.
        after_path token (macs_path mac (codes "interface-id")) _ (λ eni_id.
          after_path token (macs_path mac (codes "local-ipv4s")) _ (λ ips_raw.
            after_required missing_field (first_line (text_lines ips_raw)) _ (λ line. tt)))))

fetch_interfaces-ReadsImds :
    (token : Bytes) (macs : List Bytes) → Only (fetch_interfaces token macs)
unfolding fetch_interfaces
fetch_interfaces-ReadsImds token [] = tt
fetch_interfaces-ReadsImds token (mac ∷ macs) =
    Emits-then ReadsImds (fetch_interface token mac) _ (fetch_interface-ReadsImds token mac)
      (λ info.
        Emits-then ReadsImds (fetch_interfaces token macs) _ (fetch_interfaces-ReadsImds token macs)
          (λ infos. tt))

fetch_all_interfaces-ReadsImds : (token : Bytes) → Only (fetch_all_interfaces token)
unfolding fetch_all_interfaces
fetch_all_interfaces-ReadsImds token =
    after_path token (codes "network/interfaces/macs/") _
      (λ macs_raw. fetch_interfaces-ReadsImds token (macs_of (text_lines macs_raw)))

find_eth1-ReadsImds : (token : Bytes) (macs : List Bytes) → Only (find_eth1 token macs)
unfolding find_eth1
find_eth1-ReadsImds token [] = tt
find_eth1-ReadsImds token (line ∷ rest) =
    Emits-if ReadsImds (is_empty (mac_of line)) (find_eth1 token rest) _
      (λ e. find_eth1-ReadsImds token rest)
      (λ e.
        Emits-bind ReadsImds
          (fetch_imds_path token (macs_path (mac_of line) (codes "device-number"))) _
          (fetch_imds_path-ReadsImds token (macs_path (mac_of line) (codes "device-number")))
          (λ dev.
            Emits-if ReadsImds (trim (text_or_empty dev) == codes "1") (ret (some (mac_of line)))
              (find_eth1 token rest) (λ g. tt) (λ g. find_eth1-ReadsImds token rest)))

parse_cidr-ReadsImds : (cidr : Bytes) → Only (parse_cidr cidr)
unfolding parse_cidr
parse_cidr-ReadsImds cidr =
    after_required bad_argument (split_first (codes "/") cidr) _ (λ (base_str, prefix_str).
      after_required bad_argument (parse_ipv4 base_str) _
        (λ base. after_required bad_argument (parse_unsigned 256 prefix_str) _ (λ len. tt)))

from_imds-ReadsImds : Only from_imds
unfolding from_imds
from_imds-ReadsImds = (
  tt,
  λ r. Emits-on_ok ReadsImds _ r (λ token.
      after_path token (codes "network/interfaces/macs/") _ (λ macs_raw.
        Emits-bind ReadsImds (find_eth1 token (lines macs_raw)) _
          (find_eth1-ReadsImds token (lines macs_raw))
          (λ eth1. after_required missing_field eth1 _ (λ mac.
            after_path token (macs_path mac (codes "subnet-ipv4-cidr-block")) _ (λ cidr.
              Emits-then ReadsImds (parse_cidr (trim cidr)) _ (parse_cidr-ReadsImds (trim cidr))
                (λ (base, prefix_len).
                  after_path token (codes "tags/instance/aeroftp-slot-offset") _ (λ offset_raw.
                    after_required bad_argument (parse_unsigned u32_mod (trim offset_raw)) _
                      (λ offset. tt)))))))),
)

role_of-ReadsImds : (s : Bytes) → Only (role_of s)
role_of-ReadsImds s =
    Emits-if ReadsImds (s == codes "master") (ret (ok master)) _ (λ e. tt)
      (λ e.
        Emits-if ReadsImds (s == codes "backup") (ret (ok backup)) (ret (err bad_argument))
          (λ g. tt) (λ g. tt))

first_three-ReadsImds : (infos : List IfaceInfo) → Only (first_three infos)
unfolding first_three
first_three-ReadsImds (a ∷ b ∷ c ∷ rest) = tt
first_three-ReadsImds _ = tt

resolve_rest-ReadsImds :
    (token instance_id : Bytes) (role : Role) (ifaces : IfaceInfo × IfaceInfo × IfaceInfo)
    → Only (resolve_rest token instance_id role ifaces)
unfolding resolve_rest
resolve_rest-ReadsImds token instance_id role (outside, inside, sync) =
    after_tag token (codes "keepalived-peer-sync") _ (λ peer.
      after_tag token (codes "aeroftp-vip-outside") _ (λ vip_outside.
        after_tag token (codes "aeroftp-vip-inside") _ (λ vip_inside.
          Emits-then ReadsImds from_imds _ from_imds-ReadsImds (λ net.
            after_tag token (codes "aeroftp-slot-count") _ (λ count.
              after_required bad_argument (parse_unsigned u32_mod (trim count)) _ (λ n. tt))))))

pub resolve_instance_data-ReadsImds : Only resolve_instance_data
unfolding resolve_instance_data
resolve_instance_data-ReadsImds = (
  tt,
  λ r. Emits-on_ok ReadsImds _ r (λ token. after_path token (codes "instance-id") _ (λ instance_id.
      after_tag token (codes "keepalived-role") _ (λ role_str.
        Emits-then ReadsImds (role_of role_str) _ (role_of-ReadsImds role_str) (λ role.
          Emits-then ReadsImds (fetch_all_interfaces token) _ (fetch_all_interfaces-ReadsImds token)
            (λ ifaces.
              Emits-then ReadsImds (first_three (sort_by by_device ifaces)) _
                (first_three-ReadsImds (sort_by by_device ifaces))
                (resolve_rest-ReadsImds token instance_id role)))))),
)
