-- ===== src/Pulse.antt =====
-- aeropulse/src/main.rs: the settings of a load balancer node, from which the files of keepalived are made.
pub mod Resolve
pub mod Reads
pub mod Backends
pub mod Addresses
pub mod WeightFiles
pub mod Checks
pub mod VrrpConf
pub mod Scripts
pub mod Main
pub mod Writes
use aerosuite.Base.{ℕ, to_decimal, ℤ, pos, negsuc, ◌+◌, Bytes, codes, Bool, Option, ◌∷◌}
use aerosuite.SlotNetwork.{SlotNetwork}

-- The command line. Paths are texts.
pub record PulseArgs : Type 0 where
  pub auth_pass : Bytes
  pub out : Bytes
  pub notify_master_out : Bytes
  pub notify_backup_out : Bytes
  pub chk_backends_out : Bytes
  pub chk_forward_out : Bytes
  pub backends_out : Bytes
  pub iface_outside : Bytes
  pub iface_inside : Bytes
  pub iface_sync : Bytes
  pub iface_vxlan : Bytes
  pub vrid_outside : ℕ
  pub vrid_inside : ℕ
  pub advert_int : ℕ
  pub lvs_sync_id : ℕ
  pub down_timer_adverts : ℕ
  pub priority_master : ℕ
  pub priority_backup : ℕ
  pub enable_track_interface : Bool
  pub enable_track_backends : Bool
  pub track_min_backends : ℕ
  pub enable_track_forward : Bool
  pub track_probe_host : Option Bytes
  pub track_probe_port : ℕ
  pub track_probe_timeout : ℕ
  pub track_weight : ℤ
  pub track_interval : ℕ
  pub track_fall : ℕ
  pub track_rise : ℕ
  pub lvs_sched : Bytes
  pub persistence_timeout : ℕ
  pub assign_bin : Bytes
  pub region : Bytes

pub record IfaceInfo : Type 0 where
  pub device_number : ℕ
  pub eni_id : Bytes
  pub primary_ip : Bytes

pub data Role : Type 0 where
  master backup : Role

-- Role::as_str
abbrev pub role_text : Role → Bytes
role_text master = codes "master"
role_text backup = codes "backup"

-- Role::vrrp_state
abbrev pub vrrp_state : Role → Bytes
vrrp_state role = codes "BACKUP"

pub record InstanceData : Type 0 where
  pub instance_id : Bytes
  pub role : Role
  pub outside : IfaceInfo
  pub inside : IfaceInfo
  pub peer_sync_ip : Bytes
  pub sync : IfaceInfo
  pub vip_outside : Bytes
  pub vip_inside : Bytes
  pub slot_network : SlotNetwork
  pub slot_count : ℕ

-- i32::to_string
unfoldable pub signed_decimal : ℤ → Bytes
signed_decimal (pos n) = to_decimal n
signed_decimal (negsuc n) = b'-' ∷ to_decimal (n + 1)
