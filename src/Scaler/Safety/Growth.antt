-- ===== src/Scaler/Safety/Growth.antt =====
-- The scale-up half of a pass.
use aerosuite.Base.{
  In, ◌∷◌, ◌≤◌, ℕ, ◌+◌, ◌%◌, ◌≡◌, ◌⊎◌, refl, Bytes, Bool, true, false, ◌&&◌, ◌||◌, Option, none,
  some, List, leb, length, leb_ℤ, suc_ℤ, as_u32, u32_mod, Bool-cases, inl, inr, arith, codes,
  if◌then◌else◌,
}
use aerosuite.Program.{Call, Prog, ret, send, Result, ok, err, ◌>>=◌}
use aerosuite.Program.Observed.{Observes, Observes-bind, Follows, Follows-bind}
use aerosuite.Scaler.Selection.{Looks, then_look, content_of}
use mathlib.Core.Bool.{false≢true}
use aerosuite.Snapshot.{SystemSnapshot, BackendStatus, AsgGroupInfo}
use aerosuite.Scaler.{
  Floats, ScaleConfig, ScalerState, IfaceSnapshot, total_sessions, compute_smoothed_slope,
  parse_iface_rx_bytes,
}
use aerosuite.Scaler.Pass.{average}
use aerosuite.Scaler.ScaleUp.{
  Triggers, steep, saturated, bw_per_backend, cooling, smooth, read_bandwidth, read_iface_snapshot,
  triggers_of, count_cycle, act, decide, evaluate_scale_up,
}
use aerosuite.Scaler.Safety.{IsPressed, IsRested, IsReading, Permitted}

-- The counters, the times of the last actions and the samples are the same.
abbrev SameCounters : (X : Floats) → ScalerState X → ScalerState X → Type 0
SameCounters X a b =
    (a.scale_up_cycles ≡ b.scale_up_cycles)
    × (a.last_scale_up ≡ b.last_scale_up)
    × (a.drain_cycles ≡ b.drain_cycles)
    × (a.last_drain ≡ b.last_drain)
    × (a.slope_samples ≡ b.slope_samples)

SameCounters-if :
    (X : Floats) (test : Bool) (a b c : ScalerState X)
    → SameCounters X a c
    → SameCounters X b c
    → SameCounters X (if test then a else b) c
SameCounters-if X true a b c h k = h
SameCounters-if X false a b c h k = k

smooth-SameCounters :
    (X : Floats) (prev current : IfaceSnapshot) (st : ScalerState X)
    → SameCounters X (smooth X prev current st) st
unfolding smooth
smooth-SameCounters X prev current st =
    SameCounters-if X _ _ _ st (refl, refl, refl, refl, refl) (refl, refl, refl, refl, refl)

read_bandwidth-SameCounters :
    (X : Floats) (current : Option IfaceSnapshot) (st : ScalerState X)
    → SameCounters X (read_bandwidth X current st) st
unfolding read_bandwidth
read_bandwidth-SameCounters X none st = (refl, refl, refl, refl, refl)
read_bandwidth-SameCounters X (some current) st = reading st.bw_prev
  where
    reading :
        (o : Option IfaceSnapshot)
        → SameCounters X
            (elim o [
              | none ↦ record st { bw_prev = some current }
              | some prev ↦ record (smooth X prev current st) { bw_prev = some current }
            ])
            st
    reading none = (refl, refl, refl, refl, refl)
    reading (some prev) = smooth-SameCounters X prev current st

-- The evaluation goes on for the hard trigger, or for another one above the floor.
going_on :
    (hard low steep saturated : Bool) (a b c : ℕ × Bool)
    → c.1 ≡ false
    → (if hard then a else if (low && steep) || (saturated && low) then b else c).1 ≡ true
    → (hard ≡ true) ⊎ ((low ≡ true) × (b.1 ≡ true) × ((steep ≡ true) ⊎ (saturated ≡ true)))
going_on true low steep saturated a b c z e = inl refl
going_on false true true saturated a b c z e = inr (refl, e, inl refl)
going_on false true false true a b c z e = inr (refl, e, inr refl)
going_on false true false false a b c z e = ground (arith, z, e)
going_on false false steep true a b c z e = ground (arith, z, e)
going_on false false steep false a b c z e = ground (arith, z, e)

pub cooldown_over :
    (cooldown : ℕ) (last : Option ℕ) (now : ℕ)
    → cooling cooldown last now ≡ false
    → IsRested cooldown last now
cooldown_over cooldown none now e = inl refl
cooldown_over cooldown (some past) now e = inr (past, refl, ground (arith, e))

slope_reached :
    (X : Floats) (threshold : X.F) (o : Option X.F)
    → steep X threshold o ≡ true
    → (x : X.F) × (o ≡ some x) × (X.at_most threshold x ≡ true)
slope_reached X threshold none e = absurd (false≢true e)
slope_reached X threshold (some x) e = (x, refl, e)

bandwidth_reached :
    (X : Floats) (threshold : ℕ) (o : Option ℕ)
    → saturated X threshold o ≡ true
    → (bw : ℕ) × (o ≡ some bw) × (threshold ≤ bw)
bandwidth_reached X threshold none e = absurd (false≢true e)
bandwidth_reached X threshold (some bw) e = (bw, refl, ground (arith, e))

leb_le : (a b : ℕ) → leb a b ≡ true → a ≤ b
leb_le a b e = ground (arith, e)

module _ (X : Floats) (config : ScaleConfig X) (s : SystemSnapshot) (asg_name : Bytes)
    (dry_run : Bool) (st : ScalerState X) (chosen : List BackendStatus) where
  abbrev Allowed : Looks → Call → Type 0
  Allowed = Permitted X config s asg_name dry_run st chosen

  abbrev May : {A : Type 0} → Looks → Prog A → Type 0
  May t m = Follows then_look Allowed t m

  abbrev count : ℕ
  count = length chosen % u32_mod

  abbrev avg : ℕ
  avg = average (total_sessions chosen) count

  abbrev Pressed : Looks → Type 0
  Pressed t = IsPressed X config s asg_name dry_run st t.instants t.iface avg count

  unless_dry :
      (t : Looks) (name : Bytes) (n : ℕ) (d : Bool)
      → (d ≡ false → Allowed t (Call.set_desired name n))
      → May t (if d then ret (ok tt) else send (Call.set_desired name n))
  unless_dry t name n true h = tt
  unless_dry t name n false h = (h refl, λ r. tt)

  request :
      (t : Looks) (now : ℕ) (group : AsgGroupInfo) (st' : ScalerState X)
      → s.asg_group ≡ some group
      → st'.last_scale_up ≡ st.last_scale_up
      → Pressed t
      → leb_ℤ group.max_size group.desired_capacity ≡ false
      → cooling config.scale_up_cooldown_secs st'.last_scale_up now ≡ false
      → May
          (record t { instants = now ∷ t.instants })
          (if dry_run
            then ret (ok tt)
            else send (Call.set_desired asg_name (as_u32 (suc_ℤ group.desired_capacity))))
  request t now group st' p same pressed below c =
      unless_dry (record t { instants = now ∷ t.instants }) asg_name
        (as_u32 (suc_ℤ group.desired_capacity)) dry_run
        λ d. (
          d,
          record {
            group = group;
            now = now;
            earlier = t.instants;
            present = p;
            below = below;
            one_more = refl;
            named = refl;
            last_reading = refl;
            pressed = pressed;
            rested =
                cooldown_over config.scale_up_cooldown_secs st.last_scale_up now (rw same at c);
          },
        )

  acted :
      (t : Looks) (st' : ScalerState X) (r : Result (Unit {0}))
      → May t (elim r as (λ _. Prog (ScalerState X)) [
        | err e ↦ ret st'
        | ok _ ↦ send Call.instant_now >>= λ done.
            ret (record st' { scale_up_cycles = 0; last_scale_up = some done })
      ])
  acted t st' (err e) = tt
  acted t st' (ok _) = (tt, λ done. tt)

  act-Allowed :
      (t : Looks) (group : AsgGroupInfo) (st' : ScalerState X)
      → s.asg_group ≡ some group
      → st'.last_scale_up ≡ st.last_scale_up
      → Pressed t
      → May t (act X config group asg_name dry_run st')
  unfolding act then_look
  act-Allowed t group st' p same pressed =
      elim (Bool-cases (leb_ℤ group.max_size group.desired_capacity)) [
        | inl e ↦ rw e tt
        | inr e ↦ rw e (
          tt,
          λ now. elim (Bool-cases (cooling config.scale_up_cooldown_secs st'.last_scale_up now)) [
            | inl c ↦ rw c tt
            | inr c ↦ rw c (
                Follows-bind then_look Allowed (record t { instants = now ∷ t.instants })
                  (if dry_run
                    then ret (ok tt)
                    else send (Call.set_desired asg_name (as_u32 (suc_ℤ group.desired_capacity))))
                  _ (request t now group st' p same pressed e c) (λ u r. acted u st' r))
          ],
        )
      ]

  -- The triggers of the code are those of the conditions.
  pressure_shown :
      (t : Looks) (now : ℕ) (current : Option IfaceSnapshot)
      → In now t.instants
      → IsReading t.instants t.iface current
      → (count_cycle X config
          (triggers_of X config avg
            (compute_smoothed_slope X st.slope_samples avg now)
            (bw_per_backend X (read_bandwidth X current st) count))
          st.scale_up_cycles).1
        ≡ true
      → Pressed t
  unfolding triggers_of count_cycle
  pressure_shown t now current i reading e =
      elim (going_on (leb config.hard_conn_threshold avg) (leb config.slope_low_floor avg)
        (steep X config.slope_threshold_conn_per_min
          (compute_smoothed_slope X st.slope_samples avg now))
        (saturated X config.bw_threshold_bps_per_backend
          (bw_per_backend X (read_bandwidth X current st) count))
        (
          config.scale_up_hysteresis_cycles,
          leb config.scale_up_hysteresis_cycles config.scale_up_hysteresis_cycles,
        )
        (
          (st.scale_up_cycles + 1) % u32_mod,
          leb config.scale_up_hysteresis_cycles ((st.scale_up_cycles + 1) % u32_mod),
        )
        (0, false) refl e) [
          | inl hard ↦ inl (leb_le _ _ hard)
          | inr (low, lasting, which) ↦ inr (
            leb_le _ _ low,
            leb_le _ _ lasting,
            elim which [
              | inl q ↦
                  let (slope, x, y) = slope_reached X config.slope_threshold_conn_per_min _ q in
                  inl (now, slope, i, x, y)
              | inr q ↦
                  let (bw, x, y) = bandwidth_reached X config.bw_threshold_bps_per_backend _ q in
                  inr (current, bw, reading, x, y)
            ],
          )
        ]

  decide-Allowed :
      (t : Looks) (group : AsgGroupInfo) (triggers : Triggers) (st' : ScalerState X)
      → s.asg_group ≡ some group
      → (st'.scale_up_cycles ≡ st.scale_up_cycles)
      → (st'.last_scale_up ≡ st.last_scale_up)
      → ((count_cycle X config triggers st.scale_up_cycles).1 ≡ true → Pressed t)
      → May t (decide X config group asg_name dry_run triggers st')
  unfolding decide
  decide-Allowed t group triggers st' p cycles same h =
      elim (Bool-cases (count_cycle X config triggers st'.scale_up_cycles).1) [
        | inl go ↦ rw go (act-Allowed t group _ p same (h (rw cycles at go)))
        | inr stop ↦ rw stop tt
      ]

  -- The reading of the interface after the reading `now` of the clock.
  abbrev Read : ℕ → Looks → Option IfaceSnapshot → Type 0
  Read now t current = In now t.instants × IsReading t.instants t.iface current

  with_interface :
      (t : Looks) (now at : ℕ) (content : Bytes) (rx : Option ℕ)
      → In now t.instants
      → In at t.instants
      → t.iface ≡ some content
      → parse_iface_rx_bytes content (codes "eth0") ≡ rx
      → Observes then_look Allowed (Read now) t (elim rx as (λ _. Prog (Option IfaceSnapshot)) [
        | none ↦ ret none
        | some n ↦ ret (some (record { rx_bytes = n; at = at }))
      ])
  with_interface t now at content none i j f e = (i, inl refl)
  with_interface t now at content (some n) i j f e = (i, inr (content, n, at, f, e, j, refl))

  with_content :
      (t : Looks) (now : ℕ) (r : Result Bytes)
      → In now t.instants
      → t.iface ≡ content_of r
      → Observes then_look Allowed (Read now) t (elim r as (λ _. Prog (Option IfaceSnapshot)) [
        | err e ↦ ret none
        | ok text ↦ send Call.instant_now >>= λ at.
            elim (parse_iface_rx_bytes text (codes "eth0")) [
              | none ↦ ret none
              | some rx ↦ ret (some (record { rx_bytes = rx; at = at }))
            ]
      ])
  unfolding then_look
  with_content t now (err e) i f = (i, inl refl)
  with_content t now (ok text) i f = (
    tt,
    λ at.
        unfold then_look in
        with_interface (record t { instants = at ∷ t.instants }) now at text
          (parse_iface_rx_bytes text (codes "eth0")) (inr i) (inl refl) f refl,
  )

  read_iface_snapshot-Observes :
      (t : Looks) (now : ℕ)
      → In now t.instants
      → Observes then_look Allowed (Read now) t (read_iface_snapshot X)
  unfolding read_iface_snapshot then_look
  read_iface_snapshot-Observes t now i =
      (tt, λ r. unfold then_look in with_content (record t { iface = content_of r }) now r i refl)

  with_group :
      (t : Looks) (o : Option AsgGroupInfo)
      → s.asg_group ≡ o
      → May t (evaluate_scale_up X config o avg count asg_name dry_run st)
  unfolding evaluate_scale_up then_look
  with_group t none p = tt
  with_group t (some group) p = (
    tt,
    λ now.
        let u : Looks = record t { instants = now ∷ t.instants } in
        unfold then_look in
        Observes-bind then_look Allowed (Read now) (λ v a. Unit {0}) u (read_iface_snapshot X) _
          (read_iface_snapshot-Observes u now (inl refl))
          (λ v current q.
            let same = read_bandwidth-SameCounters X current st in
            decide-Allowed v group
              (triggers_of X config avg
                (compute_smoothed_slope X (read_bandwidth X current st).slope_samples avg now)
                (bw_per_backend X (read_bandwidth X current st) count))
              _ p same.0 same.1 (λ e. pressure_shown v now current q.0 q.1 (rw same.4 at e))),
  )

  pub evaluate_scale_up-Allowed :
      (t : Looks) → May t (evaluate_scale_up X config s.asg_group avg count asg_name dry_run st)
  evaluate_scale_up-Allowed t = with_group t s.asg_group refl
