-- ===== src/Scaler/Safety.antt =====
-- Which commands a pass of the scaler can send, whatever AWS, the clock and the file system reply.
pub mod Kept
pub mod Growth
pub mod Shrink
pub mod Whole
use aerosuite.Base.{
  codes, Option, ◌-◌, ◌∷◌, ℕ, ◌+◌, ◌/◌, ◌%◌, ◌≡◌, ◌≤◌, ◌⊎◌, Bytes, Bool, true, false, none, some,
  List, All, In, length, leb, ltb, ℤ, leb_ℤ, suc_ℤ, as_u32, u32_mod,
}
use aerosuite.Program.{Call}
use aerosuite.Snapshot.{
  SystemSnapshot, BackendStatus, AsgGroupInfo, weight_draining, would_violate_min,
}
use aerosuite.Scaler.{
  Floats, ScaleConfig, ScalerState, IfaceSnapshot, sessions, total_sessions, compute_smoothed_slope,
  parse_iface_rx_bytes,
}
use aerosuite.Scaler.Drain.{draining_count}
use aerosuite.Scaler.Pass.{average}
use aerosuite.Scaler.ScaleUp.{bw_per_backend, read_bandwidth}
use aerosuite.Scaler.Selection.{Selects, Looks}

-- The cooldown after the last action is over at a reading of the clock.
abbrev pub IsRested : ℕ → Option ℕ → ℕ → Type 0
IsRested cooldown last now =
    (last ≡ none) ⊎ ((past : ℕ) × (last ≡ some past) × (cooldown ≤ (now - past) / 1000000000))

-- A reading of the interface: the counter in the last content of /proc/net/dev, at a reading of the clock. A
-- pass that cannot read it goes on without.
abbrev pub IsReading : List ℕ → Option Bytes → Option IfaceSnapshot → Type 0
IsReading instants iface current =
    (current ≡ none)
    ⊎ ((content : Bytes) × (rx : ℕ) × (at : ℕ) × (iface ≡ some content)
        × (parse_iface_rx_bytes content (codes "eth0") ≡ some rx)
        × In at instants
        × (current ≡ some (record { rx_bytes = rx; at = at })))

module _ (X : Floats) (config : ScaleConfig X) (s : SystemSnapshot) (asg_name : Bytes)
    (dry_run : Bool) (st : ScalerState X) where
  -- The load grows by at least the threshold per minute, over the samples kept, at a reading of the clock.
  abbrev pub IsSteep : List ℕ → ℕ → Type 0
  IsSteep instants avg_sessions =
      (now : ℕ) × (slope : X.F) × In now instants
      × (compute_smoothed_slope X st.slope_samples avg_sessions now ≡ some slope)
      × (X.at_most config.slope_threshold_conn_per_min slope ≡ true)

  -- The average of the bandwidth after the reading of this pass is at the threshold for each backend.
  abbrev pub IsSaturated : List ℕ → Option Bytes → ℕ → Type 0
  IsSaturated instants iface active_count =
      (current : Option IfaceSnapshot) × (bw : ℕ) × IsReading instants iface current
      × (bw_per_backend X (read_bandwidth X current st) active_count ≡ some bw)
      × (config.bw_threshold_bps_per_backend ≤ bw)

  -- The hysteresis lets a scale-up pass: the load is at the hard threshold, or it is at the floor, one of the
  -- other triggers is on, and this is one of the cycles in a row that they need.
  abbrev pub IsPressed : List ℕ → Option Bytes → ℕ → ℕ → Type 0
  IsPressed instants iface avg_sessions active_count =
      (config.hard_conn_threshold ≤ avg_sessions)
      ⊎ ((config.slope_low_floor ≤ avg_sessions)
          × (config.scale_up_hysteresis_cycles ≤ (st.scale_up_cycles + 1) % u32_mod)
          × (IsSteep instants avg_sessions ⊎ IsSaturated instants iface active_count))

  -- The desired capacity may be set: by one step, under the maximum, for the average load of the backends
  -- that count, outside of the cooldown at the last reading of the clock.
  pub record MayGrow (t : Looks) (avg_sessions active_count : ℕ) (name : Bytes) (n : ℕ)
      : Type 0 where
    pub group : AsgGroupInfo
    pub now : ℕ
    pub earlier : List ℕ
    pub present : s.asg_group ≡ some group
    pub below : leb_ℤ group.max_size group.desired_capacity ≡ false
    pub one_more : n ≡ as_u32 (suc_ℤ group.desired_capacity)
    pub named : name ≡ asg_name
    pub last_reading : t.instants ≡ now ∷ earlier
    pub pressed : IsPressed earlier t.iface avg_sessions active_count
    pub rested : IsRested config.scale_up_cooldown_secs st.last_scale_up now

  -- A backend may be drained, of those that count.
  pub record MayDrain (t : Looks) (chosen : List BackendStatus) (ip : ℕ) : Type 0 where
    pub group : AsgGroupInfo
    pub backend : BackendStatus
    pub now : ℕ
    pub earlier : List ℕ
    pub present : s.asg_group ≡ some group
    pub last_reading : t.instants ≡ now ∷ earlier
    pub counts : In backend chosen
    pub located : backend.ip ≡ ip
    pub several : leb (length chosen % u32_mod) 1 ≡ false
    pub spare : leb_ℤ group.desired_capacity group.min_size ≡ false
    pub room : leb config.max_concurrent_draining (draining_count s) ≡ false
    pub light :
        leb config.drain_threshold (total_sessions chosen / (length chosen % u32_mod)) ≡ false
    pub lasting : ltb ((st.drain_cycles + 1) % u32_mod) config.drain_hysteresis_cycles ≡ false
    pub rested : IsRested config.drain_cooldown_secs st.last_drain now
    pub idle_or_most :
        (sessions backend ≡ 0)
        ⊎ ((draining_count s ≡ 0)
            × All (λ (c : BackendStatus). sessions c ≤ sessions backend) chosen)

  -- With the backends that count. The wall clock is read before.
  abbrev pub Permitted : List BackendStatus → Looks → Call → Type 0
  Permitted chosen t Call.instant_now = Unit
  Permitted chosen t Call.read_proc_net_dev = Unit
  Permitted chosen t (Call.set_desired name n) =
      (dry_run ≡ false)
      × MayGrow t (average (total_sessions chosen) (length chosen % u32_mod))
          (length chosen % u32_mod) name n
  Permitted chosen t (Call.write_weight_file ip v) =
      (dry_run ≡ false) × (v ≡ weight_draining) × MayDrain t chosen ip
  Permitted chosen t _ = ⊥

  abbrev pub PermittedNow : Looks → Call → Type 0
  PermittedNow t Call.now_ms = Unit
  PermittedNow t c =
      (chosen : List BackendStatus) × Selects t.walls s.backends chosen × Permitted chosen t c
