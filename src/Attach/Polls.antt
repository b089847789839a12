-- ===== src/Attach/Polls.antt =====
-- The wait for a detached interface ends.
use aerosuite.Aws.{param}
use aerosuite.Base.{
  ℕ, zero, suc, ◌+◌, ◌*◌, ◌/◌, ◌≤◌, ◌<◌, ◌≡◌, Bytes, codes, none, [], ◌∷◌, leb, arith, Bool-cases,
  inl, inr, ◌≢◌, refl, Bool, true, false, Option, some, if◌then◌else◌,
}
use aerosuite.Program.{Call, call, Result, ok, err, Env, run, timed_out, Prog, ret}
use aerosuite.Attach.{ec2_query, describe_params, param}
use aerosuite.Attach.Commands.{nanos, poll_answer, poll_loop, poll_rounds, shows, first_status}

-- A monotonic clock: no command turns it back, a reading gives it, and a sleep takes its time.
pub record Clock (env : Env) : Type 0 where
  pub time : env.World → ℕ
  pub reads : (w : env.World) → (env.exec Call.instant_now w).0 ≡ time w
  pub runs : (c : Call) (w : env.World) → time w ≤ time (env.exec c w).1
  pub waits : (n : ℕ) (w : env.World) → time w + nanos n ≤ time (env.exec (Call.sleep_secs n) w).1

module _ (env : Env) (clock : Clock env) (region eni_id : Bytes) (deadline : ℕ) where
  timed-ends :
      (late : Bool) (next : Prog (Option (Result (Unit {0})))) (w : env.World)
      → (late ≡ false → (run env next w).0 ≢ none)
      → (run env (if late then ret (some (err timed_out)) else next) w).0 ≢ none
  unfolding run
  timed-ends true next w h = λ k. ground (arith, k)
  timed-ends false next w h = h refl

  -- One round ends the loop, or the next one starts at least two seconds later, the deadline not passed.
  answer-ends :
      (fuel : ℕ) (r : Result Bytes) (w : env.World)
      → ((v : env.World)
          → clock.time w + nanos 2 ≤ clock.time v
          → clock.time w < deadline
          → (run env (poll_loop fuel region eni_id deadline) v).0 ≢ none)
      → (run env
          (poll_answer
            (call (Call.sleep_secs 2) (λ _. poll_loop fuel region eni_id deadline))
            deadline
            r)
          w).0
        ≢ none
  unfolding poll_answer run
  answer-ends fuel (err e) w h = λ k. ground (arith, k)
  answer-ends fuel (ok xml) w h = elim (Bool-cases (shows (codes "available") (first_status xml))) [
    | inl e ↦ rw e (λ k. ground (arith, k))
    | inr e ↦
        let w' : env.World = (env.exec Call.instant_now w).1 in
        let now : ℕ = (env.exec Call.instant_now w).0 in
        let read : now ≡ clock.time w = clock.reads w in
        let later : clock.time w ≤ clock.time w' = clock.runs Call.instant_now w in
        let slept : clock.time w' + nanos 2 ≤ clock.time (env.exec (Call.sleep_secs 2) w').1 =
          clock.waits 2 w' in
        rw e (
          timed-ends (leb deadline now)
            (call (Call.sleep_secs 2) (λ _. poll_loop fuel region eni_id deadline)) w'
            (λ d.
              let early : clock.time w < deadline = ground (arith, d, read) in
              h (env.exec (Call.sleep_secs 2) w').1 (omega arith) early))
  ]

  -- Every round takes two seconds of the time that is left.
  pub poll_loop-ends :
      (fuel : ℕ) (w : env.World)
      → deadline ≤ clock.time w + nanos (2 * fuel)
      → (run env (poll_loop (suc fuel) region eni_id deadline) w).0 ≢ none
  unfolding poll_loop run
  poll_loop-ends zero w h =
      let c = ec2_query region (describe_params (param "NetworkInterfaceId.1" eni_id ∷ [])) in
      let sent : clock.time w ≤ clock.time (env.exec c w).1 = clock.runs c w in
      answer-ends zero (env.exec c w).0 (env.exec c w).1 (λ v l early. absurd (omega arith))
  poll_loop-ends (suc fuel) w h =
      let c = ec2_query region (describe_params (param "NetworkInterfaceId.1" eni_id ∷ [])) in
      let sent : clock.time w ≤ clock.time (env.exec c w).1 = clock.runs c w in
      answer-ends (suc fuel) (env.exec c w).0 (env.exec c w).1
        (λ v l early. unfold run in poll_loop-ends fuel v (omega arith))

-- Where no command turns the clock back, a reading gives its time and a sleep takes as long as it says, the
-- loop of poll_until_available ends, with success or an error, within `timeout_secs / 2 + 2` rounds.
pub poll_until_available-terminates :
    (env : Env) (clock : Clock env) (region eni_id : Bytes) (timeout_secs : ℕ) (w : env.World)
    → (run env
        (poll_loop
          (poll_rounds timeout_secs)
          region
          eni_id
          ((env.exec Call.instant_now w).0 + nanos timeout_secs))
        (env.exec Call.instant_now w).1).0
      ≢ none
poll_until_available-terminates env clock region eni_id timeout_secs w =
    let read : (env.exec Call.instant_now w).0 ≡ clock.time w = clock.reads w in
    let later : clock.time w ≤ clock.time (env.exec Call.instant_now w).1 =
      clock.runs Call.instant_now w in
    rw read (
      poll_loop-ends env clock region eni_id (clock.time w + nanos timeout_secs)
        (suc (timeout_secs / 2)) (env.exec Call.instant_now w).1 (omega arith))
