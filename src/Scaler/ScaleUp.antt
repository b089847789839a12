-- ===== src/Scaler/ScaleUp.antt =====
-- evaluate_scale_up: the bandwidth average, the three triggers, hysteresis, and the scale-up itself.
use aerosuite.Base.{
  ℕ, ◌+◌, ◌-◌, ◌/◌, ◌%◌, Bytes, codes, Bool, false, ◌&&◌, ◌||◌, Option, none, some, List, [], ◌∷◌,
  ◌++◌, leb, ltb, length, leb_ℤ, suc_ℤ, as_u32, u32_mod, if◌then◌else◌,
}
use aerosuite.Program.{Call, Prog, ret, send, ok, err, ◌>>=◌}
use aerosuite.Snapshot.{AsgGroupInfo}
use aerosuite.Scaler.{
  Floats, ScaleConfig, ScalerState, IfaceSnapshot, parse_iface_rx_bytes, compute_smoothed_slope,
}

-- saturating: Duration::as_secs of the time since an earlier reading
abbrev pub secs_since : ℕ → ℕ → ℕ
secs_since last now = (now - last) / 1000000000

abbrev pub cooling : ℕ → Option ℕ → ℕ → Bool
cooling cooldown none now = false
cooling cooldown (some last) now = ltb (secs_since last now) cooldown

-- The three triggers of a cycle.
pub record Triggers : Type 0 where
  pub hard : Bool
  pub slope : Bool
  pub bandwidth : Bool

module _ (X : Floats) where
  open X use {F, of_nat, of_nanos, to_u64, plus, times, divide, less, at_most, tenth, alpha, rest}

  -- The moving average after a reading, given the reading before it.
  unfoldable pub smooth : IfaceSnapshot → IfaceSnapshot → ScalerState X → ScalerState X
  smooth prev current st =
      if leb prev.at current.at
        && less tenth (of_nanos (current.at - prev.at))
        && leb prev.rx_bytes current.rx_bytes
      then (let raw =
            divide (of_nat (current.rx_bytes - prev.rx_bytes)) (of_nanos (current.at - prev.at)) in
          record st {
            bw_smoothed = plus (times alpha raw) (times rest st.bw_smoothed);
            bw_raw_bps = to_u64 raw;
          })
      else st

  unfoldable pub read_bandwidth : Option IfaceSnapshot → ScalerState X → ScalerState X
  unfolding smooth
  read_bandwidth none st = st
  read_bandwidth (some current) st = elim st.bw_prev [
    | none ↦ record st { bw_prev = some current }
    | some prev ↦ record (smooth prev current st) { bw_prev = some current }
  ]

  -- read_iface_snapshot; an error only disarms the bandwidth trigger.
  unfoldable pub read_iface_snapshot : Prog (Option IfaceSnapshot)
  read_iface_snapshot = send Call.read_proc_net_dev >>= λ content. elim content [
    | err e ↦ ret none
    | ok text ↦ send Call.instant_now >>= λ at. elim (parse_iface_rx_bytes text (codes "eth0")) [
      | none ↦ ret none
      | some rx ↦ ret (some (record { rx_bytes = rx; at = at }))
    ]
  ]

  -- push_back, then pop_front while there are more than seven.
  unfoldable pub push_sample : ℕ × ℕ → List (ℕ × ℕ) → List (ℕ × ℕ)
  push_sample s [] = s ∷ []
  push_sample s (old ∷ samples) =
      if ltb 7 (length (old ∷ samples ++ s ∷ []))
      then samples ++ s ∷ []
      else old ∷ samples ++ s ∷ []

  abbrev pub steep : F → Option F → Bool
  steep threshold none = false
  steep threshold (some s) = at_most threshold s

  -- `active_count` is not zero here: the caller returned on zero.
  unfoldable pub bw_per_backend : ScalerState X → ℕ → Option ℕ
  bw_per_backend st active_count =
      if ltb 0 active_count && less (of_nat 0) st.bw_smoothed
      then some (to_u64 st.bw_smoothed / active_count)
      else none

  abbrev pub saturated : ℕ → Option ℕ → Bool
  saturated threshold none = false
  saturated threshold (some bw) = leb threshold bw

  module _ (config : ScaleConfig X) where
    open config use {
      hard_conn_threshold, slope_low_floor, slope_threshold_conn_per_min,
      bw_threshold_bps_per_backend, scale_up_hysteresis_cycles, scale_up_cooldown_secs,
    }

    unfoldable pub triggers_of : ℕ → Option F → Option ℕ → Triggers
    triggers_of avg_sessions slope bw = record {
      hard = leb hard_conn_threshold avg_sessions;
      slope = leb slope_low_floor avg_sessions && steep slope_threshold_conn_per_min slope;
      bandwidth = saturated bw_threshold_bps_per_backend bw && leb slope_low_floor avg_sessions;
    }

    -- The hysteresis counter, and whether the evaluation goes on.
    unfoldable pub count_cycle : Triggers → ℕ → ℕ × Bool
    count_cycle t cycles =
        if t.hard
        then (scale_up_hysteresis_cycles, leb scale_up_hysteresis_cycles scale_up_hysteresis_cycles)
        else if t.slope || t.bandwidth
        then ((cycles + 1) % u32_mod, leb scale_up_hysteresis_cycles ((cycles + 1) % u32_mod))
        else (0, false)

    -- The clock is read here also where there is no earlier scale-up.
    -- The guards and the action, once the counter has reached the threshold.
    unfoldable pub act : AsgGroupInfo → Bytes → Bool → ScalerState X → Prog (ScalerState X)
    act group asg_name dry_run st =
        if leb_ℤ group.max_size group.desired_capacity
        then ret st
        else (send Call.instant_now >>= λ now.
            if cooling scale_up_cooldown_secs st.last_scale_up now
            then ret st
            else ((if dry_run
                  then ret (ok tt)
                  else send (Call.set_desired asg_name (as_u32 (suc_ℤ group.desired_capacity))))
                >>= λ r. elim r [
                  | err e ↦ ret st
                  | ok _ ↦ send Call.instant_now >>= λ done.
                      ret (record st { scale_up_cycles = 0; last_scale_up = some done })
                ]))

    -- After the readings of the cycle.
    unfoldable pub decide :
        AsgGroupInfo → Bytes → Bool → Triggers → ScalerState X → Prog (ScalerState X)
    unfolding count_cycle act
    decide group asg_name dry_run t st =
        let (cycles, go) = count_cycle t st.scale_up_cycles in
        if go
        then act group asg_name dry_run (record st { scale_up_cycles = cycles })
        else ret (record st { scale_up_cycles = cycles })

    unfoldable pub evaluate_scale_up :
        Option AsgGroupInfo → ℕ → ℕ → Bytes → Bool → ScalerState X → Prog (ScalerState X)
    unfolding decide triggers_of bw_per_backend push_sample read_bandwidth read_iface_snapshot
    evaluate_scale_up none avg_sessions active_count asg_name dry_run st = ret st
    evaluate_scale_up (some group) avg_sessions active_count asg_name dry_run st =
        send Call.instant_now >>= λ now. read_iface_snapshot >>= λ current.
        let st' = read_bandwidth current st in
        let slope = compute_smoothed_slope X st'.slope_samples avg_sessions now in
        decide group asg_name dry_run
          (triggers_of avg_sessions slope (bw_per_backend st' active_count))
          (record st' { slope_samples = push_sample (now, avg_sessions) st'.slope_samples })
