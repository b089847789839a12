-- ===== src/Collect.antt =====
-- aeroscale/src/snapshot/mod.rs: SystemSnapshot::collect, which reads all sources.
pub mod Ipvs
pub mod Weights
use aerosuite.Base.{Bytes, Option, none, List, []}
use aerosuite.Program.{Call, Prog, ret, send, Result, ok, err, ◌>>=◌, ◌>>=?◌}
use aerosuite.Snapshot.Leases.{Cache, read_all as read_leases}
use aerosuite.Asg.{read_all as read_asg}
use aerosuite.Collect.Weights.{read_all as read_weights}
use aerosuite.Collect.Ipvs.{read_all as read_ipvs}
use aerosuite.SlotNetwork.{SlotNetwork}
use aerosuite.Snapshot.{
  SystemSnapshot, AsgGroupInfo, AsgInstance, IpvsBackend, assemble, WeightEntry, SlotLease,
}

-- A failed query of the ASG or of IPVS is logged and counts as nothing found.
abbrev pub group_found :
    Result (Option AsgGroupInfo × List AsgInstance) → Option AsgGroupInfo × List AsgInstance
group_found (ok found) = found
group_found (err e) = (none, [])

abbrev pub ipvs_found : Result (List IpvsBackend) → List IpvsBackend
ipvs_found (ok found) = found
ipvs_found (err e) = []

-- The best-effort half: the ASG, then IPVS.
unfoldable pub collect_rest :
    SlotNetwork → Bytes → Bytes → List WeightEntry → List SlotLease → Prog SystemSnapshot
unfolding read_asg read_ipvs assemble
collect_rest net region asg_name weights list = read_asg region asg_name >>= λ group.
    read_ipvs >>= λ ipvs.
    ret (assemble net weights list (group_found group).0 (group_found group).1 (ipvs_found ipvs))

-- Errors of the weight files and of the leases end it; the cache keeps what was learnt.
unfoldable pub collect_leases :
    SlotNetwork
    → Bytes
    → Bytes
    → List WeightEntry
    → Result (List SlotLease) × Cache
    → Prog (Result SystemSnapshot × Cache)
unfolding collect_rest
collect_leases net region asg_name weights (err e, cache) = ret (err e, cache)
collect_leases net region asg_name weights (ok list, cache) =
    collect_rest net region asg_name weights list >>= λ snapshot. ret (ok snapshot, cache)

unfoldable pub collect_weights :
    SlotNetwork
    → Bytes
    → Bytes
    → Cache
    → Result (List WeightEntry)
    → Prog (Result SystemSnapshot × Cache)
unfolding collect_leases read_leases
collect_weights net region asg_name cache (err e) = ret (err e, cache)
collect_weights net region asg_name cache (ok weights) =
    read_leases cache >>= collect_leases net region asg_name weights

unfoldable pub collect : SlotNetwork → Bytes → Bytes → Cache → Prog (Result SystemSnapshot × Cache)
unfolding collect_weights read_weights
collect net region asg_name cache = read_weights >>= collect_weights net region asg_name cache
