-- ===== src/Scaler/Drain.antt =====
-- evaluate_drain: the guards, the gate, hysteresis, cooldown, the choice of a backend, and its drain.
use aerosuite.Base.{
  ℕ, ◌+◌, ◌/◌, ◌%◌, Bool, Option, none, some, List, [], ◌∷◌, leb, ltb, nat_beq, length, filter,
  u32_mod, if◌then◌else◌,
}
use aerosuite.Program.{Call, Prog, ret, send, ok, err, ◌>>=◌}
use aerosuite.Snapshot.{
  SystemSnapshot, BackendStatus, AsgGroupInfo, is_draining, weight_draining, would_violate_min,
}
use aerosuite.Cleanup.{write_weight}
use aerosuite.Scaler.{Floats, ScaleConfig, ScalerState, sessions, total_sessions}
use aerosuite.Scaler.ScaleUp.{cooling}

-- sort_by_key(sessions), stable; the backends in order of their sessions.
unfoldable pub insert_by_sessions : BackendStatus → List BackendStatus → List BackendStatus
insert_by_sessions b [] = b ∷ []
insert_by_sessions b (c ∷ cs) =
    let rest = insert_by_sessions b cs in
    if leb (sessions b) (sessions c) then b ∷ c ∷ cs else c ∷ rest

unfoldable pub sort_by_sessions : List BackendStatus → List BackendStatus
unfolding insert_by_sessions
sort_by_sessions [] = []
sort_by_sessions (b ∷ bs) = insert_by_sessions b (sort_by_sessions bs)

unfoldable pub last_of : BackendStatus → List BackendStatus → BackendStatus
last_of b [] = b
last_of b (c ∷ cs) = last_of c cs

-- A backend without sessions; else, if no drain is under way, the most loaded one; else none.
unfoldable pub candidate_of : List BackendStatus → ℕ → Option BackendStatus
unfolding last_of
candidate_of [] draining_count = none
candidate_of (least ∷ more) draining_count =
    if nat_beq (sessions least) 0
    then some least
    else if nat_beq draining_count 0
    then some (last_of least more)
    else none

unfoldable pub draining_count : SystemSnapshot → ℕ
draining_count s =
    length (filter (λ (b : BackendStatus). is_draining b.weight_state) s.backends) % u32_mod

module _ (X : Floats) (config : ScaleConfig X) (snapshot : SystemSnapshot) (dry_run : Bool) where
  open config use {
    drain_threshold, drain_hysteresis_cycles, drain_cooldown_secs, max_concurrent_draining,
  }

  abbrev pub reset_drain : ScalerState X → ScalerState X
  reset_drain st = record st { drain_cycles = 0; drain_candidate = none }

  unfoldable pub drain_chosen : Option BackendStatus → ScalerState X → Prog (ScalerState X)
  unfolding write_weight
  drain_chosen none st = ret st
  drain_chosen (some b) st = write_weight b.ip weight_draining dry_run >>= λ r. elim r [
    | err e ↦ ret st
    | ok _ ↦ send Call.instant_now >>= λ done.
        ret (record st { drain_cycles = 0; drain_candidate = none; last_drain = some done })
  ]

  -- With the gate open: hysteresis, cooldown (for which the clock is read also where there is no earlier
  -- drain), candidate.
  unfoldable pub gate_open : List BackendStatus → ScalerState X → Prog (ScalerState X)
  unfolding drain_chosen candidate_of sort_by_sessions draining_count
  gate_open active st =
      let cycles = (st.drain_cycles + 1) % u32_mod in
      let st' = record st { drain_cycles = cycles } in
      if ltb cycles drain_hysteresis_cycles
      then ret st'
      else (send Call.instant_now >>= λ now.
          if cooling drain_cooldown_secs st'.last_drain now
          then ret st'
          else drain_chosen (candidate_of (sort_by_sessions active) (draining_count snapshot)) st')

  -- With a group: `active_count` is the number of counted backends, as a u32.
  unfoldable pub evaluate_in_group :
      AsgGroupInfo → List BackendStatus → ScalerState X → Prog (ScalerState X)
  unfolding gate_open total_sessions
  evaluate_in_group group active st =
      let active_count = length active % u32_mod in
      if leb active_count 1
      then ret (reset_drain st)
      else if would_violate_min group
      then ret (reset_drain st)
      else if leb max_concurrent_draining (draining_count snapshot)
      then ret st
      else if leb drain_threshold (total_sessions active / active_count)
      then ret (record st { drain_cycles = 0 })
      else gate_open active st

  unfoldable pub evaluate_drain :
      Option AsgGroupInfo → List BackendStatus → ScalerState X → Prog (ScalerState X)
  unfolding evaluate_in_group
  evaluate_drain none active st = ret st
  evaluate_drain (some group) active st = evaluate_in_group group active st
