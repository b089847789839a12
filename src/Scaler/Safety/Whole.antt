-- ===== src/Scaler/Safety/Whole.antt =====
-- The whole pass of the scaler: the commands that it can send, and the samples that it keeps.
use aerosuite.Base.{
  In, [], ℕ, subst, refl, sym, ◌≡◌, ◌%◌, ◌≤◌, Bytes, Bool, List, length, nat_beq, u32_mod,
}
use aerosuite.Program.{Call, Reply, Prog, ret, call, Returns}
use aerosuite.Program.Observed.{Observes-if, Observes-bind, Follows, Follows-Returns-bind}
use aerosuite.Program.Laws.{Returns-bind, Returns-if, Returns-mono, Returns-any}
use aerosuite.Snapshot.{SystemSnapshot, BackendStatus}
use aerosuite.Scaler.{Floats, ScaleConfig, ScalerState, total_sessions}
use aerosuite.Scaler.ScaleUp.{evaluate_scale_up}
use aerosuite.Scaler.Drain.{evaluate_drain}
use aerosuite.Scaler.Pass.{average, count_backends, evaluate, run_scaler}
use aerosuite.Scaler.Selection.{Selects, Looks, no_looks, then_look, count_backends-Observes}
use aerosuite.Scaler.Safety.{Permitted, PermittedNow}
use aerosuite.Scaler.Safety.Kept.{Keeps, evaluate_scale_up-Keeps, evaluate_drain-SameSamples}
use aerosuite.Scaler.Safety.Growth.{evaluate_scale_up-Allowed}
use aerosuite.Scaler.Safety.Shrink.{evaluate_drain-Allowed}

module _ (X : Floats) (config : ScaleConfig X) (s : SystemSnapshot) (asg_name : Bytes)
    (dry_run : Bool) (st : ScalerState X) where
  evaluate-Permitted :
      (chosen : List BackendStatus) (t : Looks)
      → Follows then_look
          (Permitted X config s asg_name dry_run st chosen)
          t
          (evaluate X config s asg_name dry_run chosen st)
  unfolding evaluate
  evaluate-Permitted chosen t =
      let active_count = length chosen % u32_mod in
      let Allowed = Permitted X config s asg_name dry_run st chosen in
      Observes-if then_look Allowed (λ u a. Unit {0}) t (nat_beq active_count 0) _ _ (λ _. tt)
        λ _.
          Follows-Returns-bind then_look Allowed (Keeps X st) t
            (evaluate_scale_up X config s.asg_group (average (total_sessions chosen) active_count)
              active_count asg_name dry_run st)
            _ (evaluate_scale_up-Allowed X config s asg_name dry_run st chosen t)
            (evaluate_scale_up-Keeps X config asg_name dry_run s.asg_group _ active_count st)
            (λ u st' kept.
              evaluate_drain-Allowed X config s asg_name dry_run st chosen u st' kept.0)

  -- What a selection permits does not read the wall clock.
  walls_stay :
      (chosen : List BackendStatus) (t : Looks) (c : Call) (r : Reply c)
      → Permitted X config s asg_name dry_run st chosen t c
      → (then_look t c r).walls ≡ t.walls
  unfolding then_look
  walls_stay chosen t Call.now_ms r p = absurd p
  walls_stay chosen t _ r p = refl

  permitted_now :
      (chosen : List BackendStatus) (t : Looks) (c : Call)
      → Selects t.walls s.backends chosen
      → Permitted X config s asg_name dry_run st chosen t c
      → PermittedNow X config s asg_name dry_run st t c
  permitted_now chosen t Call.now_ms h p = tt
  permitted_now chosen t _ h p = (chosen, h, p)

  with_selection :
      {A : Type 0} (chosen : List BackendStatus) (t : Looks) (m : Prog A)
      → Selects t.walls s.backends chosen
      → Follows then_look (Permitted X config s asg_name dry_run st chosen) t m
      → Follows then_look (PermittedNow X config s asg_name dry_run st) t m
  with_selection chosen t (ret a) h f = tt
  with_selection chosen t (call c k) h f = (
    permitted_now chosen t c h f.0,
    λ r.
        with_selection chosen (then_look t c r) (k r)
          (subst (λ walls. Selects walls s.backends chosen) (sym (walls_stay chosen t c r f.0)) h)
          (f.1 r),
  )

  pub run_scaler-PermittedNow :
      Follows then_look
        (PermittedNow X config s asg_name dry_run st)
        no_looks
        (run_scaler X config s asg_name dry_run st)
  unfolding run_scaler
  run_scaler-PermittedNow =
      let Allowed = PermittedNow X config s asg_name dry_run st in
      Observes-bind then_look Allowed
        (λ t chosen. ((n : ℕ) → In n [] → In n t.walls) × Selects t.walls s.backends chosen)
        (λ t a. Unit {0}) no_looks (count_backends s.backends) _
        (count_backends-Observes Allowed (λ t. tt) no_looks s.backends)
        (λ t chosen h.
          with_selection chosen t (evaluate X config s asg_name dry_run chosen st) h.1
            (evaluate-Permitted chosen t))

  evaluate-few :
      (chosen : List BackendStatus)
      → length st.slope_samples ≤ 7
      → Returns
          (λ (st' : ScalerState X). length st'.slope_samples ≤ 7)
          (evaluate X config s asg_name dry_run chosen st)
  unfolding evaluate
  evaluate-few chosen h =
      let active_count = length chosen % u32_mod in
      Returns-if _ (nat_beq active_count 0) _ _ h (
        Returns-bind (Keeps X st) (λ (st' : ScalerState X). length st'.slope_samples ≤ 7)
          (evaluate_scale_up X config s.asg_group (average (total_sessions chosen) active_count)
            active_count asg_name dry_run st)
          _ (evaluate_scale_up-Keeps X config asg_name dry_run s.asg_group _ active_count st)
          (λ st' kept.
            Returns-mono (evaluate_drain X config s dry_run s.asg_group chosen st')
              (λ st'' same. rw same (kept.1 h))
              (evaluate_drain-SameSamples X config s dry_run s.asg_group chosen st')))

  -- Whatever the replies are, a pass that starts with at most seven slope samples ends with at most seven.
  pub run_scaler-keeps_few :
      length st.slope_samples ≤ 7
      → Returns
          (λ (st' : ScalerState X). length st'.slope_samples ≤ 7)
          (run_scaler X config s asg_name dry_run st)
  unfolding run_scaler
  run_scaler-keeps_few h =
      Returns-bind (λ _. Unit) (λ (st' : ScalerState X). length st'.slope_samples ≤ 7)
        (count_backends s.backends) _ (Returns-any (count_backends s.backends))
        (λ chosen _. evaluate-few chosen h)
