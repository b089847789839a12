-- ===== src/Tests/Scaling.antt =====
-- A pass of the scaler on a small fleet.
use aerosuite.Base.{
  ℕ, ◌+◌, ◌-◌, ◌*◌, ◌/◌, ◌≤◌, codes, false, none, some, [], ◌∷◌, pos, length, leb, ltb, arith,
}
use aerosuite.Program.{Returns}
use aerosuite.Snapshot.{SystemSnapshot, BackendStatus, active}
use aerosuite.Scaler.{Floats, ScaleConfig, ScalerState}
use aerosuite.Scaler.Pass.{run_scaler}
use aerosuite.Scaler.Safety.Whole.{run_scaler-keeps_few}

-- Floats in whole milliseconds and thousandths.
abbrev pub thousandths : Floats
thousandths = record {
  F = ℕ;
  of_nat = λ n. n * 1000;
  of_nanos = λ n. n / 1000000;
  to_u64 = λ x. x / 1000;
  plus = λ x y. x + y;
  minus = λ x y. x - y;
  times = λ x y. x * y / 1000;
  divide = λ x y. x * 1000 / y;
  less = ltb;
  at_most = leb;
  tenth = 100;
  alpha = 600;
  rest = 400;
  sixty = 60000;
}

abbrev pub small_config : ScaleConfig thousandths
small_config = record {
  hard_conn_threshold = 40;
  slope_low_floor = 10;
  slope_threshold_conn_per_min = 5000;
  bw_threshold_bps_per_backend = 100000;
  drain_threshold = 5;
  scale_up_hysteresis_cycles = 2;
  drain_hysteresis_cycles = 3;
  scale_up_cooldown_secs = 60;
  drain_cooldown_secs = 60;
  max_concurrent_draining = 1;
}

abbrev pub rested_state : ScalerState thousandths
rested_state = record {
  scale_up_cycles = 1;
  drain_cycles = 2;
  drain_candidate = none;
  last_scale_up = none;
  last_drain = none;
  slope_samples = (0, 4) ∷ (1000000000, 6) ∷ [];
  bw_prev = none;
  bw_smoothed = 0;
  bw_raw_bps = 0;
}

abbrev served : ℕ → ℕ → BackendStatus
served slot connections = record {
  ip = 1000 + slot;
  slot = some slot;
  weight_state = active;
  ipvs =
      some
        (record { ip = 1000 + slot; active_connections = connections; inactive_connections = 0 });
  lease = some (record { slot = slot; owner_instance_id = codes "i-1"; expires_ms = 9000 });
}

-- Two backends, one of them without sessions.
abbrev quiet_fleet : SystemSnapshot
quiet_fleet = record {
  backends = served 1 0 ∷ served 2 8 ∷ [];
  leases = [];
  asg = [];
  asg_group =
      some (record {
        name = codes "asg";
        desired_capacity = pos 2;
        min_size = pos 1;
        max_size = pos 4;
      });
  ipvs = [];
}

run_scaler-keeps_few_example :
    Returns
      (λ (st' : ScalerState thousandths). length st'.slope_samples ≤ 7)
      (run_scaler thousandths small_config quiet_fleet (codes "asg") false rested_state)
run_scaler-keeps_few_example =
    run_scaler-keeps_few thousandths small_config quiet_fleet (codes "asg") false rested_state
      (omega arith)
