-- ===== src/Scaler/Safety/Kept.antt =====
-- What the evaluations of a pass leave as it was.
use aerosuite.Base.{
  ◌+◌, ◌/◌, ◌%◌, u32_mod, leb, ltb, ℕ, ◌≡◌, ◌≤◌, refl, Bytes, Bool, true, false, Option, none, some,
  List, [], ◌∷◌, ◌++◌, ltb, length, leb_ℤ, suc_ℤ, as_u32, Bool-cases, inl, inr, arith,
  if◌then◌else◌, ◌∙◌,
}
use aerosuite.Program.{Call, Prog, ret, send, Result, ok, err, ◌>>=◌, Returns}
use aerosuite.Program.Laws.{Returns-bind, Returns-any, Returns-mono, Returns-if}
use aerosuite.Cleanup.{write_weight}
use aerosuite.Snapshot.{
  BackendStatus, would_violate_min, weight_draining, SystemSnapshot, AsgGroupInfo,
}
use aerosuite.Scaler.{
  total_sessions, compute_smoothed_slope, Floats, ScaleConfig, ScalerState, IfaceSnapshot,
}
use aerosuite.Scaler.ScaleUp.{
  bw_per_backend, triggers_of, Triggers, cooling, smooth, read_bandwidth, read_iface_snapshot,
  push_sample, count_cycle, act, decide, evaluate_scale_up,
}
use aerosuite.Scaler.Drain.{
  draining_count, drain_chosen, gate_open, evaluate_in_group, evaluate_drain,
}

-- The state of the drain evaluation, and the samples.
abbrev pub SameDrain : (X : Floats) → ScalerState X → ScalerState X → Type 0
SameDrain X b a = (a.drain_cycles ≡ b.drain_cycles) × (a.last_drain ≡ b.last_drain)

abbrev SameRest : (X : Floats) → ScalerState X → ScalerState X → Type 0
SameRest X b a = SameDrain X b a × (a.slope_samples ≡ b.slope_samples)

-- A scale-up evaluation leaves the drain's state, and at most seven samples where there were as few.
abbrev pub Keeps : (X : Floats) → ScalerState X → ScalerState X → Type 0
Keeps X st st' = SameDrain X st st' × (length st.slope_samples ≤ 7 → length st'.slope_samples ≤ 7)

SameRest-if :
    (X : Floats) (test : Bool) (a b c : ScalerState X)
    → SameRest X c a
    → SameRest X c b
    → SameRest X c (if test then a else b)
SameRest-if X true a b c h k = h
SameRest-if X false a b c h k = k

smooth-SameRest :
    (X : Floats) (prev current : IfaceSnapshot) (st : ScalerState X)
    → SameRest X st (smooth X prev current st)
unfolding smooth
smooth-SameRest X prev current st = SameRest-if X _ _ _ st ((refl, refl), refl) ((refl, refl), refl)

read_bandwidth-SameRest :
    (X : Floats) (current : Option IfaceSnapshot) (st : ScalerState X)
    → SameRest X st (read_bandwidth X current st)
unfolding read_bandwidth
read_bandwidth-SameRest X none st = ((refl, refl), refl)
read_bandwidth-SameRest X (some current) st = reading st.bw_prev
  where
    reading :
        (o : Option IfaceSnapshot)
        → SameRest X st (elim o [
          | none ↦ record st { bw_prev = some current }
          | some prev ↦ record (smooth X prev current st) { bw_prev = some current }
        ])
    reading none = ((refl, refl), refl)
    reading (some prev) = smooth-SameRest X prev current st

length-snoc : (s : ℕ × ℕ) (samples : List (ℕ × ℕ)) → length (samples ++ s ∷ []) ≡ length samples + 1
length-snoc s [] = refl
length-snoc s (t ∷ samples) = ground (arith, length-snoc s samples)

push_sample-bounded :
    (X : Floats) (s : ℕ × ℕ) (samples : List (ℕ × ℕ))
    → length samples ≤ 7
    → length (push_sample X s samples) ≤ 7
unfolding push_sample
push_sample-bounded X s [] h = omega arith
push_sample-bounded X s (old ∷ samples) h =
    elim (Bool-cases (ltb 7 (length (old ∷ samples ++ s ∷ [])))) [
      | inl e ↦ rw (e, length-snoc s samples) (omega arith)
      | inr e ↦ rw e (ground arith)
    ]

module _ (X : Floats) (config : ScaleConfig X) (group : AsgGroupInfo) (asg_name : Bytes)
    (dry_run : Bool) where
  acted-SameRest :
      (st : ScalerState X) (r : Result (Unit {0}))
      → Returns (SameRest X st) (elim r as (λ _. Prog (ScalerState X)) [
        | err e ↦ ret st
        | ok _ ↦ send Call.instant_now >>= λ done.
            ret (record st { scale_up_cycles = 0; last_scale_up = some done })
      ])
  acted-SameRest st (err e) = ((refl, refl), refl)
  acted-SameRest st (ok _) = λ done. ((refl, refl), refl)

  act-SameRest :
      (st : ScalerState X) → Returns (SameRest X st) (act X config group asg_name dry_run st)
  unfolding act
  act-SameRest st = elim (Bool-cases (leb_ℤ group.max_size group.desired_capacity)) [
    | inl e ↦ rw e ((refl, refl), refl)
    | inr e ↦ rw e (λ now.
        elim (Bool-cases (cooling config.scale_up_cooldown_secs st.last_scale_up now)) [
          | inl c ↦ rw c ((refl, refl), refl)
          | inr c ↦ rw c (
              Returns-bind (λ _. Unit) (SameRest X st)
                (if dry_run
                  then ret (ok tt)
                  else send (Call.set_desired asg_name (as_u32 (suc_ℤ group.desired_capacity))))
                _ (Returns-any _) (λ r _. acted-SameRest st r))
        ])
  ]

  decide-SameRest :
      (t : Triggers) (st : ScalerState X)
      → Returns (SameRest X st) (decide X config group asg_name dry_run t st)
  unfolding decide
  decide-SameRest t st = elim (Bool-cases (count_cycle X config t st.scale_up_cycles).1) [
    | inl go ↦ rw go (act-SameRest _)
    | inr stop ↦ rw stop ((refl, refl), refl)
  ]

  decide-Keeps :
      (t : Triggers) (st a : ScalerState X)
      → Keeps X st a
      → Returns (Keeps X st) (decide X config group asg_name dry_run t a)
  decide-Keeps t st a (drain, few) =
      Returns-mono {Q = SameRest X a} {S = Keeps X st} (decide X config group asg_name dry_run t a)
        (λ st' ((cycles, last), samples).
          ((cycles ∙ drain.0, last ∙ drain.1), λ h. rw samples (few h)))
        (decide-SameRest t a)

-- After the readings of a cycle.
pushed-Keeps :
    (X : Floats) (current : Option IfaceSnapshot) (sample : ℕ × ℕ) (st : ScalerState X)
    → Keeps X st (record (read_bandwidth X current st) {
      slope_samples = push_sample X sample (read_bandwidth X current st).slope_samples;
    })
pushed-Keeps X current sample st =
    let (drain, samples) = read_bandwidth-SameRest X current st in
    (drain, λ h. push_sample-bounded X sample _ (rw samples h))

module _ (X : Floats) (config : ScaleConfig X) (asg_name : Bytes) (dry_run : Bool) where
  pub evaluate_scale_up-Keeps :
      (group : Option AsgGroupInfo) (avg active_count : ℕ) (st : ScalerState X)
      → Returns (Keeps X st) (evaluate_scale_up X config group avg active_count asg_name dry_run st)
  unfolding evaluate_scale_up
  evaluate_scale_up-Keeps none avg active_count st = ((refl, refl), λ h. h)
  evaluate_scale_up-Keeps (some group) avg active_count st = λ now.
      Returns-bind (λ _. Unit) (Keeps X st) (read_iface_snapshot X) _
        (Returns-any (read_iface_snapshot X))
        λ current _.
          let st' = read_bandwidth X current st in
          decide-Keeps X config group asg_name dry_run
            (triggers_of X config avg (compute_smoothed_slope X st'.slope_samples avg now)
              (bw_per_backend X st' active_count))
            st (record st' { slope_samples = push_sample X (now, avg) st'.slope_samples })
            (pushed-Keeps X current (now, avg) st)

-- A drain evaluation leaves the samples.
module _ (X : Floats) (config : ScaleConfig X) (s : SystemSnapshot) (dry_run : Bool) where
  abbrev SameSamples : ScalerState X → ScalerState X → Type 0
  SameSamples st a = a.slope_samples ≡ st.slope_samples

  drained-SameSamples :
      (st : ScalerState X) (r : Result (Unit {0}))
      → Returns (SameSamples st) (elim r as (λ _. Prog (ScalerState X)) [
        | err e ↦ ret st
        | ok _ ↦ send Call.instant_now >>= λ done.
            ret (record st { drain_cycles = 0; drain_candidate = none; last_drain = some done })
      ])
  drained-SameSamples st (err e) = refl
  drained-SameSamples st (ok _) = λ done. refl

  drain_chosen-SameSamples :
      (o : Option BackendStatus) (st : ScalerState X)
      → Returns (SameSamples st) (drain_chosen X config s dry_run o st)
  unfolding drain_chosen
  drain_chosen-SameSamples none st = refl
  drain_chosen-SameSamples (some b) st =
      Returns-bind (λ _. Unit) (SameSamples st) (write_weight b.ip weight_draining dry_run) _
        (Returns-any (write_weight b.ip weight_draining dry_run)) (λ r _. drained-SameSamples st r)

  gate_open-SameSamples :
      (chosen : List BackendStatus) (st : ScalerState X)
      → Returns (SameSamples st) (gate_open X config s dry_run chosen st)
  unfolding gate_open
  gate_open-SameSamples chosen st =
      elim (Bool-cases (ltb ((st.drain_cycles + 1) % u32_mod) config.drain_hysteresis_cycles)) [
        | inl e ↦ rw e refl
        | inr e ↦ rw e (λ now.
            elim (Bool-cases (cooling config.drain_cooldown_secs st.last_drain now)) [
              | inl c ↦ rw c refl
              | inr c ↦ rw c (drain_chosen-SameSamples _ _)
            ])
      ]

  pub evaluate_drain-SameSamples :
      (group : Option AsgGroupInfo) (chosen : List BackendStatus) (st : ScalerState X)
      → Returns (SameSamples st) (evaluate_drain X config s dry_run group chosen st)
  unfolding evaluate_drain evaluate_in_group
  evaluate_drain-SameSamples none chosen st = refl
  evaluate_drain-SameSamples (some group) chosen st =
      let active_count = length chosen % u32_mod in
      Returns-if (SameSamples st) (leb active_count 1) _ _ refl (
        Returns-if (SameSamples st) (would_violate_min group) _ _ refl (
          Returns-if (SameSamples st) (leb config.max_concurrent_draining (draining_count s)) _ _
            refl
            (Returns-if (SameSamples st)
              (leb config.drain_threshold (total_sessions chosen / active_count)) _ _ refl
              (gate_open-SameSamples chosen st))))
