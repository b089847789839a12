-- ===== src/Daemon/Reads.antt =====
-- A backup and its snapshot: programs that only read.
use aerosuite.Cleanup.Orphans.{run_cleanup}
use aerosuite.Base.{bytes_eq, refl, Bytes, false, List}
use aerosuite.Program.{◌>>=◌, Result, ok, err, Emits}
use aerosuite.Program.Laws.{Emits-bind}
use aerosuite.Snapshot.Leases.{Cache, read_all as read_leases}
use aerosuite.Asg.{read_all as read_asg}
use aerosuite.Metrics.{Values}
use aerosuite.Collect.{collect, collect_weights, collect_leases, collect_rest}
use aerosuite.Collect.Weights.{read_all as read_weights}
use aerosuite.Collect.Ipvs.{read_all as read_ipvs}
use aerosuite.Scaler.{Floats}
use aerosuite.Daemon.{Settings, DaemonState, act_on, persist_if_master, scale_if_master}
use aerosuite.Snapshot.{SystemSnapshot, SlotLease, WeightEntry}
use aerosuite.SlotNetwork.{SlotNetwork}
use aerosuite.Daemon.Passive.{Passive, read_weights-Passive, read_leases-Passive, read_asg-Passive}

module _ (net : SlotNetwork) (region asg_name : Bytes) where
  collect_rest-Passive :
      (weights : List WeightEntry) (list : List SlotLease)
      → Emits Passive (collect_rest net region asg_name weights list)
  unfolding collect_rest read_ipvs Passive
  collect_rest-Passive weights list =
      Emits-bind Passive (read_asg region asg_name) _ (read_asg-Passive region asg_name)
        (λ group. (refl, λ r. tt))

  collect_leases-Passive :
      (weights : List WeightEntry) (found : Result (List SlotLease) × Cache)
      → Emits Passive (collect_leases net region asg_name weights found)
  unfolding collect_leases
  collect_leases-Passive weights (err e, cache) = tt
  collect_leases-Passive weights (ok list, cache) =
      Emits-bind Passive (collect_rest net region asg_name weights list) _
        (collect_rest-Passive weights list) (λ snapshot. tt)

  collect_weights-Passive :
      (cache : Cache) (found : Result (List WeightEntry))
      → Emits Passive (collect_weights net region asg_name cache found)
  unfolding collect_weights
  collect_weights-Passive cache (err e) = tt
  collect_weights-Passive cache (ok weights) =
      Emits-bind Passive (read_leases cache) _ (read_leases-Passive cache)
        (collect_leases-Passive weights)

  pub collect-Passive : (cache : Cache) → Emits Passive (collect net region asg_name cache)
  unfolding collect
  collect-Passive cache =
      Emits-bind Passive read_weights _ read_weights-Passive (collect_weights-Passive cache)

module _ (X : Floats) (Y : Values) (settings : Settings X) (st : DaemonState X Y) where
  act_on-Passive :
      (found : Result SystemSnapshot × Cache) → Emits Passive (act_on X Y settings false st found)
  unfolding act_on run_cleanup persist_if_master scale_if_master
  act_on-Passive (err e, cache) = tt
  act_on-Passive (ok snapshot, cache) = tt

  -- What a backup does after the copying.
  pub after_sync-Passive : Emits Passive (
      collect settings.slot_network settings.region settings.asg_name st.owner_cache
      >>= act_on X Y settings false st)
  after_sync-Passive =
      Emits-bind Passive
        (collect settings.slot_network settings.region settings.asg_name st.owner_cache) _
        (collect-Passive settings.slot_network settings.region settings.asg_name st.owner_cache)
        act_on-Passive
