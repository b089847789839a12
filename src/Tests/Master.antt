-- ===== src/Tests/Master.antt =====
-- The master's parts on concrete inputs.
use aerosuite.Base.{
  ℕ, ◌+◌, ◌≡◌, ◌<◌, ◌↔◌, refl, Bytes, codes, true, false, none, some, List, [], ◌∷◌, pos, u32_mod,
  map, arith,
}
use aerosuite.Program.{Call, Reply, Result, err, transient, call_failed, Env, run}
use aerosuite.SlotNetwork.{SlotNetwork, ip_for_slot, slot_for_ip, slot_for_ip_iff}
use aerosuite.Snapshot.{
  SystemSnapshot, active, draining, SlotLease, AsgInstance, AsgGroupInfo, IpvsBackend, ip_to_lease,
  status_of,
}
use aerosuite.Snapshot.Leases.{Cache, read_loop}
use aerosuite.Snapshot.Joins.{lease_of_slot, lease-status_of}
use aerosuite.Snapshot.Outage.{cached_lease, read_loop_outage}
use aerosuite.Cleanup.Orphans.{run_cleanup}
use aerosuite.Cleanup.Safety.{then_read, no_readings, Justified}
use aerosuite.Program.Observed.{Follows}
use aerosuite.Cleanup.SafePass.{run_cleanup-Justified}

abbrev pub small_net : SlotNetwork
small_net = record { base = 1000; offset = 10; prefix_len = 24 }

abbrev lease_three : SlotLease
lease_three = record { slot = 3; owner_instance_id = codes "i-3"; expires_ms = 500 }

abbrev lease_four : SlotLease
lease_four = record { slot = 4; owner_instance_id = codes "i-4"; expires_ms = 500 }

abbrev idle_ipvs : IpvsBackend
idle_ipvs = record { ip = 1013; active_connections = 0; inactive_connections = 0 }

abbrev group_of_three : AsgGroupInfo
group_of_three = record {
  name = codes "asg";
  desired_capacity = pos 3;
  min_size = pos 1;
  max_size = pos 5;
}

abbrev instance : Bytes → AsgInstance
instance id = record {
  instance_id = id;
  lifecycle_state = codes "InService";
  health_status = codes "Healthy";
}

-- Slot 3 is drained, slot 4 is served by an instance that is gone, and i-9 has no lease.
abbrev troubled : SystemSnapshot
troubled = record {
  backends =
      record {
        ip = 1013;
        slot = some 3;
        weight_state = draining;
        ipvs = some idle_ipvs;
        lease = some lease_three;
      }
      ∷ record {
        ip = 1014;
        slot = some 4;
        weight_state = active;
        ipvs = none;
        lease = some lease_four;
      }
      ∷ [];
  leases = lease_three ∷ lease_four ∷ [];
  asg = instance (codes "i-3") ∷ instance (codes "i-9") ∷ [];
  asg_group = some group_of_three;
  ipvs = idle_ipvs ∷ [];
}

run_cleanup-Justified_example :
    Follows then_read
      (Justified troubled true false 300 [])
      no_readings
      (run_cleanup troubled false true true [] 300)
run_cleanup-Justified_example = run_cleanup-Justified troubled true false 300 [] true

lease-status_of_example :
    (status_of small_net
      (idle_ipvs ∷ [])
      (ip_to_lease small_net (lease_three ∷ lease_four ∷ []) [])
      (record { ip = 1014; state = active })).lease
    ≡ lease_of_slot 4 (lease_three ∷ lease_four ∷ [])
unfolding ip_for_slot
lease-status_of_example =
    lease-status_of small_net 4 (omega arith) (idle_ipvs ∷ []) (lease_three ∷ lease_four ∷ [])
      (record { ip = 1014; state = active }) (omega arith, (omega arith, tt)) refl

-- A Redis that answers no command.
unfoldable pub unavailable : {A : Type 0} → Result A × Unit {0}
unavailable = (err (call_failed transient), tt)

unfoldable pub answers_nothing : (c : Call) → Unit {0} → Reply c × Unit {0}
answers_nothing (Call.get k) w = unavailable
answers_nothing (Call.set_key k v) w = unavailable
answers_nothing (Call.del k) w = unavailable
answers_nothing (Call.zscore z m) w = unavailable
answers_nothing (Call.zadd z m s) w = unavailable
answers_nothing (Call.zadd_nx z m s) w = unavailable
answers_nothing (Call.zrem z m) w = unavailable
answers_nothing (Call.zrangebyscore z m) w = unavailable
answers_nothing (Call.zpopmin z) w = unavailable
answers_nothing (Call.zrange_withscores z) w = unavailable
answers_nothing (Call.zcard z) w = unavailable
answers_nothing (Call.eval s) w = unavailable
answers_nothing (Call.publish m) w = unavailable
answers_nothing (Call.print_slot s) w = (tt, tt)
answers_nothing Call.notify_main w = (tt, tt)
answers_nothing Call.connect w = unavailable
answers_nothing Call.now_ms w = (7, tt)
answers_nothing Call.instant_now w = (7, tt)
answers_nothing (Call.write_weight_file ip v) w = unavailable
answers_nothing Call.read_proc_net_dev w = unavailable
answers_nothing Call.read_dir w = unavailable
answers_nothing (Call.read_file n) w = unavailable
answers_nothing (Call.write_file n c) w = unavailable
answers_nothing (Call.terminate i d) w = unavailable
answers_nothing (Call.set_desired n c) w = unavailable
answers_nothing (Call.aws_query h v g ps) w = unavailable
answers_nothing Call.imds_token w = unavailable
answers_nothing (Call.imds_get t p) w = unavailable
answers_nothing (Call.sleep_secs n) w = (tt, tt)
answers_nothing (Call.sleep_ms n) w = (tt, tt)
answers_nothing (Call.create_dir p) w = unavailable
answers_nothing (Call.write_text p t) w = unavailable
answers_nothing Call.ip_addr_show w = unavailable
answers_nothing Call.read_proc_ip_vs w = unavailable
answers_nothing (Call.http_get url) w = unavailable
answers_nothing (Call.set_permissions path mode) w = unavailable
answers_nothing (Call.hgetall key) w = unavailable
answers_nothing (Call.open_writer path m) w = unavailable
answers_nothing (Call.write_chunk b) w = unavailable
answers_nothing Call.shutdown_writer w = unavailable

abbrev outage : Env
outage = record { World = Unit {0}; exec = answers_nothing }

abbrev raw_leases : List (Bytes × ℕ)
raw_leases = (codes "3", 500) ∷ (codes "4", 600) ∷ []

abbrev remembered : Cache
remembered = (3, codes "i-3") ∷ []

read_loop_outage_example :
    (run outage (read_loop raw_leases remembered) tt).0
    ≡ (map (cached_lease remembered) raw_leases, remembered)
unfolding answers_nothing unavailable
read_loop_outage_example =
    read_loop_outage outage (call_failed transient) (λ key w. refl) raw_leases remembered tt

slot_for_ip_iff_example :
    (slot_for_ip small_net 1013 ≡ some 3)
    ↔ ((ip_for_slot small_net 3 ≡ 1013) × (1000 + 10 + 3 < u32_mod))
slot_for_ip_iff_example = slot_for_ip_iff small_net 3 1013 (omega arith) (omega arith)
