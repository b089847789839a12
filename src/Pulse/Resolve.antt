-- ===== src/Pulse/Resolve.antt =====
-- aeropulse/src/main.rs, resolve_instance_data: what the node learns from the instance metadata.
use aerosuite.Base.{
  parse_unsigned, u32_mod, trim, is_empty, text_lines, sort_by, bytes_eq, Bytes, codes, Bool,
  Option, none, some, List, [], ◌∷◌, ◌++◌, leb, if◌then◌else◌, ◌==◌,
}
use aerosuite.Program.{Call, Prog, ret, send, Result, ok, err, bad_argument, missing_field, ◌>>=?◌}
use aerosuite.Aws.{fetch_imds_path, required}
use aerosuite.SlotNetwork.Imds.{mac_of, macs_path, trim_slashes, from_imds}
use aerosuite.Pulse.{IfaceInfo, Role, master, backup, InstanceData}

unfoldable pub fetch_imds_tag : Bytes → Bytes → Prog (Result Bytes)
unfolding fetch_imds_path
fetch_imds_tag token tag_key = fetch_imds_path token (codes "tags/instance/" ++ tag_key)

abbrev pub role_of : Bytes → Prog (Result Role)
role_of s =
    if s == codes "master"
    then ret (ok master)
    else if s == codes "backup"
    then ret (ok backup)
    else ret (err bad_argument)

-- The lines of the list of MAC addresses, without the empty ones.
unfoldable pub macs_of : List Bytes → List Bytes
unfolding trim_slashes
macs_of [] = []
macs_of (line ∷ lines) =
    let rest = macs_of lines in if is_empty (mac_of line) then rest else mac_of line ∷ rest

abbrev pub first_line : List Bytes → Option Bytes
first_line [] = none
first_line (line ∷ lines) = some line

unfoldable pub fetch_interface : Bytes → Bytes → Prog (Result IfaceInfo)
unfolding fetch_imds_path
fetch_interface token mac =
    fetch_imds_path token (macs_path mac (codes "device-number")) >>=? λ number.
    required bad_argument (parse_unsigned u32_mod number) >>=? λ device_number.
    fetch_imds_path token (macs_path mac (codes "interface-id")) >>=? λ eni_id.
    fetch_imds_path token (macs_path mac (codes "local-ipv4s")) >>=? λ ips_raw.
    required missing_field (first_line (text_lines ips_raw)) >>=? λ line.
    ret (ok (record { device_number = device_number; eni_id = eni_id; primary_ip = trim line }))

unfoldable pub fetch_interfaces : Bytes → List Bytes → Prog (Result (List IfaceInfo))
unfolding fetch_interface
fetch_interfaces token [] = ret (ok [])
fetch_interfaces token (mac ∷ macs) = fetch_interface token mac >>=? λ info.
    fetch_interfaces token macs >>=? λ infos. ret (ok (info ∷ infos))

unfoldable pub fetch_all_interfaces : Bytes → Prog (Result (List IfaceInfo))
unfolding macs_of fetch_interfaces
fetch_all_interfaces token =
    fetch_imds_path token (codes "network/interfaces/macs/") >>=? λ macs_raw.
    fetch_interfaces token (macs_of (text_lines macs_raw))

abbrev pub by_device : IfaceInfo → IfaceInfo → Bool
by_device a b = leb a.device_number b.device_number

-- At least three interfaces, of which the first three count.
unfoldable pub first_three : List IfaceInfo → Prog (Result (IfaceInfo × IfaceInfo × IfaceInfo))
first_three (outside ∷ inside ∷ sync ∷ rest) = ret (ok (outside, inside, sync))
first_three _ = ret (err missing_field)

-- What follows the interfaces.
unfoldable pub resolve_rest :
    Bytes → Bytes → Role → IfaceInfo × IfaceInfo × IfaceInfo → Prog (Result InstanceData)
unfolding fetch_imds_tag from_imds
resolve_rest token instance_id role (outside, inside, sync) =
    fetch_imds_tag token (codes "keepalived-peer-sync") >>=? λ peer_sync_ip.
    fetch_imds_tag token (codes "aeroftp-vip-outside") >>=? λ vip_outside.
    fetch_imds_tag token (codes "aeroftp-vip-inside") >>=? λ vip_inside.
    from_imds >>=? λ slot_network.
    fetch_imds_tag token (codes "aeroftp-slot-count") >>=? λ slot_count_str.
    required bad_argument (parse_unsigned u32_mod (trim slot_count_str)) >>=? λ slot_count. ret (
      ok (record {
        instance_id = instance_id;
        role = role;
        outside = outside;
        inside = inside;
        peer_sync_ip = peer_sync_ip;
        sync = sync;
        vip_outside = vip_outside;
        vip_inside = vip_inside;
        slot_network = slot_network;
        slot_count = slot_count;
      }))

unfoldable pub resolve_instance_data : Prog (Result InstanceData)
unfolding fetch_imds_tag fetch_all_interfaces first_three resolve_rest
resolve_instance_data = send Call.imds_token >>=? λ token.
    fetch_imds_path token (codes "instance-id") >>=? λ instance_id.
    fetch_imds_tag token (codes "keepalived-role") >>=? λ role_str. role_of role_str >>=? λ role.
    fetch_all_interfaces token >>=? λ ifaces.
    first_three (sort_by by_device ifaces) >>=? resolve_rest token instance_id role
