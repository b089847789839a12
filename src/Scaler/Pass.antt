-- ===== src/Scaler/Pass.antt =====
-- scaler::run: the backends that count, their average load, and both evaluations.
use aerosuite.Base.{
  is_some, ℕ, ◌+◌, ◌-◌, ◌/◌, ◌%◌, Bytes, Bool, ◌&&◌, none, List, [], ◌∷◌, nat_beq, length, u32_mod,
  if◌then◌else◌,
}
use aerosuite.Program.{Call, Prog, ret, send, ◌>>=◌}
use aerosuite.Snapshot.{SystemSnapshot, BackendStatus, is_active}
use aerosuite.Scaler.{Floats, ScaleConfig, ScalerState, total_sessions, has_live_lease, has_ipvs}
use aerosuite.Scaler.ScaleUp.{evaluate_scale_up}
use aerosuite.Scaler.Drain.{evaluate_drain}

-- Active, with a live lease, with IPVS data. Only an active backend with a lease makes `is_expired` read
-- the clock.
abbrev pub is_counted : BackendStatus → ℕ → Bool
is_counted b now = is_active b.weight_state && (has_live_lease now b.lease && has_ipvs b.ipvs)

unfoldable pub count_backends : List BackendStatus → Prog (List BackendStatus)
count_backends [] = ret []
count_backends (b ∷ bs) =
    let rest = count_backends bs in
    if is_active b.weight_state && is_some b.lease
    then (send Call.now_ms >>= λ now.
        rest >>= λ more. ret (if is_counted b now then b ∷ more else more))
    else rest

-- Ceiling division in u32.
unfoldable pub average : ℕ → ℕ → ℕ
average total count = (total + count - 1) % u32_mod / count

module _ (X : Floats) (config : ScaleConfig X) (snapshot : SystemSnapshot) (asg_name : Bytes)
    (dry_run : Bool) where
  unfoldable pub evaluate : List BackendStatus → ScalerState X → Prog (ScalerState X)
  unfolding total_sessions average evaluate_scale_up evaluate_drain
  evaluate active st =
      let active_count = length active % u32_mod in
      if nat_beq active_count 0
      then ret (record st { scale_up_cycles = 0; drain_cycles = 0; drain_candidate = none })
      else (evaluate_scale_up X config snapshot.asg_group
            (average (total_sessions active) active_count) active_count asg_name dry_run st
          >>= λ st'. evaluate_drain X config snapshot dry_run snapshot.asg_group active st')

  unfoldable pub run_scaler : ScalerState X → Prog (ScalerState X)
  unfolding count_backends evaluate
  run_scaler st = count_backends snapshot.backends >>= λ active. evaluate active st
