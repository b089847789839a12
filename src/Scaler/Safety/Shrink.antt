-- ===== src/Scaler/Safety/Shrink.antt =====
-- The drain half of a pass.
use aerosuite.Base.{
  true, ℕ, ◌+◌, ◌/◌, ◌%◌, ◌≡◌, ◌≤◌, ◌⊎◌, refl, Bytes, Bool, false, Option, none, some, List, [],
  ◌∷◌, In, All, All-In, leb, ltb, nat_beq, nat_beq_iff, length, u32_mod, Bool-cases, inl, inr,
}
use aerosuite.Program.{Call, Prog, ret, send, Result, ok, err, ◌>>=◌}
use aerosuite.Program.Observed.{Observes-if, Follows, Follows-bind}
use aerosuite.Scaler.Selection.{Looks, then_look}
use aerosuite.Scaler.Safety.Growth.{cooldown_over}
use aerosuite.Snapshot.{
  SystemSnapshot, BackendStatus, AsgGroupInfo, would_violate_min, weight_draining,
}
use aerosuite.Cleanup.{write_weight}
use aerosuite.Scaler.{Floats, ScaleConfig, ScalerState, sessions, total_sessions}
use aerosuite.Scaler.ScaleUp.{cooling}
use aerosuite.Scaler.Drain.{
  sort_by_sessions, candidate_of, draining_count, drain_chosen, gate_open, evaluate_in_group,
  evaluate_drain,
}
use aerosuite.Scaler.Order.{IsSorted, sort-IsSorted, sort-All, All-sort, All-last_of, last_of-most}
use aerosuite.Scaler.Safety.{MayDrain, Permitted}
use aerosuite.Scaler.Safety.Kept.{SameDrain}

-- A candidate is one of the backends; it is idle, or no drain is under way and it has the most sessions.
IsCandidate : List BackendStatus → ℕ → BackendStatus → Type 0
IsCandidate chosen count b =
    In b chosen
    × ((sessions b ≡ 0)
        ⊎ ((count ≡ 0) × All (λ (c : BackendStatus). sessions c ≤ sessions b) chosen))

abbrev Every : (BackendStatus → Type 0) → Option BackendStatus → Type 0
Every Q none = Unit
Every Q (some b) = Q b

sorted-IsCandidate :
    (chosen sorted : List BackendStatus) (count : ℕ)
    → IsSorted sorted
    → All (λ (b : BackendStatus). In b chosen) sorted
    → ((Q : BackendStatus → Type 0) → All Q sorted → All Q chosen)
    → Every (IsCandidate chosen count) (candidate_of sorted count)
unfolding candidate_of IsCandidate
sorted-IsCandidate chosen [] count sorted among back = tt
sorted-IsCandidate chosen (least ∷ more) count sorted among back =
    elim (Bool-cases (nat_beq (sessions least) 0)) [
      | inl idle ↦ rw idle (among.0, inl ((nat_beq_iff (sessions least) 0).0 idle))
      | inr busy ↦ elim (Bool-cases (nat_beq count 0)) [
        | inl first ↦
            rw (busy, first)
              (
                All-last_of (λ (b : BackendStatus). In b chosen) least more among,
                inr ((nat_beq_iff count 0).0 first, back _ (last_of-most least more sorted)),
              )
        | inr later ↦ rw (busy, later) tt
      ]
    ]

candidate :
    (chosen : List BackendStatus) (count : ℕ)
    → Every (IsCandidate chosen count) (candidate_of (sort_by_sessions chosen) count)
candidate chosen count =
    sorted-IsCandidate chosen (sort_by_sessions chosen) count (sort-IsSorted chosen)
      (sort-All (λ (b : BackendStatus). In b chosen) chosen (All-In chosen))
      (λ Q h. All-sort Q chosen h)

abbrev Any : {A : Type 0} → Looks → A → Type 0
Any t a = Unit {0}

module _ (X : Floats) (config : ScaleConfig X) (s : SystemSnapshot) (asg_name : Bytes)
    (dry_run : Bool) (st : ScalerState X) (chosen : List BackendStatus) where
  abbrev Allowed : Looks → Call → Type 0
  Allowed = Permitted X config s asg_name dry_run st chosen

  abbrev May : {A : Type 0} → Looks → Prog A → Type 0
  May t m = Follows then_look Allowed t m

  drained :
      (t : Looks) (st' : ScalerState X) (r : Result (Unit {0}))
      → May t (elim r as (λ _. Prog (ScalerState X)) [
        | err e ↦ ret st'
        | ok _ ↦ send Call.instant_now >>= λ done.
            ret (record st' { drain_cycles = 0; drain_candidate = none; last_drain = some done })
      ])
  drained t st' (err e) = tt
  drained t st' (ok _) = (tt, λ done. tt)

  weight-Allowed :
      (t : Looks) (ip : ℕ) (d : Bool)
      → (d ≡ false → Allowed t (Call.write_weight_file ip weight_draining))
      → May t (write_weight ip weight_draining d)
  unfolding write_weight
  weight-Allowed t ip true h = tt
  weight-Allowed t ip false h = (h refl, λ r. tt)

  drain_chosen-Allowed :
      (t : Looks) (o : Option BackendStatus) (st' : ScalerState X)
      → Every (λ b. MayDrain X config s asg_name dry_run st t chosen b.ip) o
      → May t (drain_chosen X config s dry_run o st')
  unfolding drain_chosen
  drain_chosen-Allowed t none st' h = tt
  drain_chosen-Allowed t (some b) st' h =
      Follows-bind then_look Allowed t (write_weight b.ip weight_draining dry_run) _
        (weight-Allowed t b.ip dry_run (λ d. (d, refl, h))) (λ u r. drained u st' r)

  may :
      (t : Looks) (group : AsgGroupInfo) (now : ℕ)
      → s.asg_group ≡ some group
      → leb (length chosen % u32_mod) 1 ≡ false
      → would_violate_min group ≡ false
      → leb config.max_concurrent_draining (draining_count s) ≡ false
      → leb config.drain_threshold (total_sessions chosen / (length chosen % u32_mod)) ≡ false
      → ltb ((st.drain_cycles + 1) % u32_mod) config.drain_hysteresis_cycles ≡ false
      → cooling config.drain_cooldown_secs st.last_drain now ≡ false
      → (o : Option BackendStatus) → Every (IsCandidate chosen (draining_count s)) o
      → Every
          (λ b.
            MayDrain X config s asg_name dry_run st
              (record t { instants = now ∷ t.instants })
              chosen
              b.ip)
          o
  unfolding IsCandidate
  may t group now p several spare room light lasting rested none h = tt
  may t group now p several spare room light lasting rested (some b) (i, j) = record {
    group = group;
    backend = b;
    now = now;
    earlier = t.instants;
    present = p;
    last_reading = refl;
    counts = i;
    located = refl;
    several = several;
    spare = spare;
    room = room;
    light = light;
    lasting = lasting;
    rested = cooldown_over config.drain_cooldown_secs st.last_drain now rested;
    idle_or_most = j;
  }

  gate_open-Allowed :
      (t : Looks) (st' : ScalerState X)
      → SameDrain X st st'
      → (ltb ((st.drain_cycles + 1) % u32_mod) config.drain_hysteresis_cycles ≡ false
          → (now : ℕ) → cooling config.drain_cooldown_secs st.last_drain now ≡ false
          → Every
              (λ b.
                MayDrain X config s asg_name dry_run st
                  (record t { instants = now ∷ t.instants })
                  chosen
                  b.ip)
              (candidate_of (sort_by_sessions chosen) (draining_count s)))
      → May t (gate_open X config s dry_run chosen st')
  unfolding gate_open then_look
  gate_open-Allowed t st' (cycles, last) h =
      Observes-if then_look Allowed Any t
        (ltb ((st'.drain_cycles + 1) % u32_mod) config.drain_hysteresis_cycles) _ _ (λ _. tt)
        λ lasting. (
          tt,
          λ now.
              let u : Looks = record t { instants = now ∷ t.instants } in
              unfold then_look in
              Observes-if then_look Allowed Any u
                (cooling config.drain_cooldown_secs st'.last_drain now) _ _ (λ _. tt)
                λ rested.
                  drain_chosen-Allowed u (candidate_of (sort_by_sessions chosen) (draining_count s))
                    _ (h (rw cycles at lasting) now (rw last at rested)),
        )

  with_group :
      (t : Looks) (o : Option AsgGroupInfo) (st' : ScalerState X)
      → s.asg_group ≡ o
      → SameDrain X st st'
      → May t (evaluate_drain X config s dry_run o chosen st')
  unfolding evaluate_drain evaluate_in_group
  with_group t none st' p same = tt
  with_group t (some group) st' p same =
      let active_count = length chosen % u32_mod in
      Observes-if then_look Allowed Any t (leb active_count 1) _ _ (λ _. tt)
        λ several.
          Observes-if then_look Allowed Any t (would_violate_min group) _ _ (λ _. tt)
            λ spare.
              Observes-if then_look Allowed Any t
                (leb config.max_concurrent_draining (draining_count s)) _ _ (λ _. tt)
                λ room.
                  Observes-if then_look Allowed Any t
                    (leb config.drain_threshold (total_sessions chosen / active_count)) _ _
                    (λ _. tt)
                    λ light. gate_open-Allowed t st' same λ lasting now rested.
                      may t group now p several spare room light lasting rested
                        (candidate_of (sort_by_sessions chosen) (draining_count s))
                        (candidate chosen (draining_count s))

  pub evaluate_drain-Allowed :
      (t : Looks) (st' : ScalerState X)
      → SameDrain X st st'
      → May t (evaluate_drain X config s dry_run s.asg_group chosen st')
  evaluate_drain-Allowed t st' same = with_group t s.asg_group st' refl same
