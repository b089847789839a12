-- ===== src/Snapshot.antt =====
-- aeroscale/src/snapshot/mod.rs: the data of a snapshot, and how its parts are joined.
pub mod Leases
pub mod Outage
pub mod Joins
use aerosuite.Base.{
  ℕ, ◌≡◌, Bytes, codes, Bool, true, false, not, ◌&&◌, Option, none, some, List, [], ◌∷◌, ℤ, leb_ℤ,
  ◌==◌, bytes_eq, nat_eq, nat_beq, leb, trim, find, insert, lookup, map, if◌then◌else◌,
}
use aerosuite.SlotNetwork.{SlotNetwork, ip_for_slot, slot_for_ip}

abbrev pub weight_active : Bytes
weight_active = codes "0"

abbrev pub weight_draining : Bytes
weight_draining = codes "-1"

abbrev pub weight_disabled : Bytes
weight_disabled = codes "-2147483648"

pub data BackendState : Type 0 where
  active draining disabled : BackendState
  unknown : Bytes → BackendState

weight_state_of : Bytes → BackendState
weight_state_of s =
    if s == weight_active
    then active
    else if s == weight_draining
    then draining
    else if s == weight_disabled
    then disabled
    else unknown s

unfoldable pub from_weight_str : Bytes → BackendState
unfolding weight_state_of
from_weight_str s = weight_state_of (trim s)

abbrev pub is_active : BackendState → Bool
is_active active = true
is_active draining = false
is_active disabled = false
is_active (unknown v) = false

abbrev pub is_draining : BackendState → Bool
is_draining active = false
is_draining draining = true
is_draining disabled = false
is_draining (unknown v) = false

pub record SlotLease : Type 0 where
  pub slot : ℕ
  pub owner_instance_id : Bytes
  pub expires_ms : ℕ

-- SlotLease::is_expired at a reading of the clock
abbrev pub is_expired : SlotLease → ℕ → Bool
is_expired l now = leb l.expires_ms now

pub record AsgGroupInfo : Type 0 where
  pub name : Bytes
  pub desired_capacity : ℤ
  pub min_size : ℤ
  pub max_size : ℤ

abbrev pub would_violate_min : AsgGroupInfo → Bool
would_violate_min g = leb_ℤ g.desired_capacity g.min_size

pub record AsgInstance : Type 0 where
  pub instance_id : Bytes
  pub lifecycle_state : Bytes
  pub health_status : Bytes

unfoldable pub is_in_service : AsgInstance → Bool
is_in_service i = i.lifecycle_state == codes "InService"

pub record IpvsBackend : Type 0 where
  pub ip : ℕ
  pub active_connections : ℕ
  pub inactive_connections : ℕ

pub record BackendStatus : Type 0 where
  pub ip : ℕ
  pub slot : Option ℕ
  pub weight_state : BackendState
  pub ipvs : Option IpvsBackend
  pub lease : Option SlotLease

pub record SystemSnapshot : Type 0 where
  pub backends : List BackendStatus
  pub leases : List SlotLease
  pub asg : List AsgInstance
  pub asg_group : Option AsgGroupInfo
  pub ipvs : List IpvsBackend

-- snapshot/weights.rs: one weight file.
pub record WeightEntry : Type 0 where
  pub ip : ℕ
  pub state : BackendState

-- `collect` into a HashMap: a later lease of the same address replaces an earlier one.
unfoldable pub ip_to_lease :
    SlotNetwork → List SlotLease → List (ℕ × SlotLease) → List (ℕ × SlotLease)
ip_to_lease net [] m = m
ip_to_lease net (l ∷ ls) m = ip_to_lease net ls (insert (ip_for_slot net l.slot) l m)

unfoldable pub status_of :
    SlotNetwork → List IpvsBackend → List (ℕ × SlotLease) → WeightEntry → BackendStatus
status_of net ipvs leases w = record {
  ip = w.ip;
  slot = slot_for_ip net w.ip;
  weight_state = w.state;
  ipvs = find (λ (i : IpvsBackend). nat_beq i.ip w.ip) ipvs;
  lease = lookup w.ip leases;
}

-- The assembly at the end of SystemSnapshot::collect; a failed ASG query arrives as no group and no
-- instances, a failed IPVS read as no real servers.
unfoldable pub assemble :
    SlotNetwork
    → List WeightEntry
    → List SlotLease
    → Option AsgGroupInfo
    → List AsgInstance
    → List IpvsBackend
    → SystemSnapshot
unfolding status_of ip_to_lease
assemble net weights leases group instances ipvs = record {
  backends = map (status_of net ipvs (ip_to_lease net leases [])) weights;
  leases = leases;
  asg = instances;
  asg_group = group;
  ipvs = ipvs;
}
