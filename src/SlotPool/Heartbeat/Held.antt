-- ===== src/SlotPool/Heartbeat/Held.antt =====
-- cmd_heartbeat of aeroslot/src/main.rs keeps its lease while other clients use the pool.
use aerosuite.Base.{
  ℕ, zero, suc, ◌+◌, ◌*◌, ◌%◌, ◌<◌, ◌≡◌, refl, ap, ◌∙◌, Bytes, some, [], bytes_eq, bytes_beq,
  bytes_beq_iff, to_decimal, u64_mod, arith, Bool-cases, inl, inr,
}
use native.Mathlib.Nat.{mod-eq_of_lt}
use aerosuite.Program.{leases, ok, run, on_ok, ret}
use aerosuite.Program.Laws.{run-bind}
use aerosuite.Redis.{Redis}
use aerosuite.SlotPool.{key_owner}
use aerosuite.SlotPool.View.{view-renew}
use aerosuite.SlotPool.Server.{answer, deliver}
use aerosuite.SlotPool.Commands.{
  cmd_heartbeat, heartbeat_loop, renew_with_retry, renew_owned, cmd_renew,
}
use aerosuite.SlotPool.Invariant.{IsPool}
use aerosuite.SlotPool.Heartbeat.{
  Shared, share, shared, slept, Holds, AllForeign, disturb-Holds, remaining-AllForeign,
}

last_expiry :
    (expiry clock n ttl_ms : ℕ) → expiry ≡ clock + 0 * n + ttl_ms → expiry ≡ clock + ttl_ms
last_expiry expiry clock n ttl_ms x = omega arith

next_expiry :
    (expiry clock ticks n ttl_ms : ℕ)
    → expiry ≡ clock + suc ticks * n + ttl_ms
    → expiry ≡ clock + n + ticks * n + ttl_ms
next_expiry expiry clock ticks n ttl_ms x = omega arith

module _ (R : Redis) where
  open R use {Db, get, add, score}

  -- Every command of the session is answered.
  abbrev pub IsCalm : Shared R → Type 0
  IsCalm w = w.session.fates ≡ []

  -- A renewal in the name of the owner.
  abbrev pub renewed : Bytes → ℕ → Shared R → Shared R
  renewed slot ttl_ms w = record w {
    session = record w.session {
      db = add leases slot ((w.session.clock + ttl_ms) % u64_mod) w.session.db;
    };
  }

  ruleset renewal = (run, share, answer, renew_owned)

  run-renewal :
      (retries slot : ℕ) (id : Bytes) (ttl_ms delay : ℕ) (w : Shared R)
      → IsCalm w
      → get (key_owner (to_decimal slot)) w.session.db ≡ some id
      → run (shared R) (renew_with_retry retries slot id ttl_ms delay) w
        ≡ (ok tt, renewed (to_decimal slot) ttl_ms w)
  unfolding renew_with_retry cmd_renew renew_owned run share answer deliver
  run-renewal zero slot id ttl_ms delay w c e =
      rw (c, run, share, answer) (rw (e, renewal) (rw ((bytes_beq_iff id id).1 refl, renewal) refl))
  run-renewal (suc retries) slot id ttl_ms delay w c e =
      rw (c, run, share, answer) (rw (e, renewal) (rw ((bytes_beq_iff id id).1 refl, renewal) refl))

  -- From its own renewal on, the instance holds the slot for the time of the lease.
  renewed-Holds :
      (slot id : Bytes) (ttl_ms : ℕ) (w : Shared R)
      → IsPool R w.session.db
      → get (key_owner slot) w.session.db ≡ some id
      → w.session.clock + ttl_ms < u64_mod
      → Holds R slot id (w.session.clock + ttl_ms) (renewed slot ttl_ms w).session.db
  renewed-Holds slot id ttl_ms w p e l = rw (mod-eq_of_lt l) (
    record {
      at = λ m. elim (Bool-cases (bytes_beq slot m)) [
        | inl q ↦ ground (
          arith,
          q,
          ap (λ x. get (key_owner x) w.session.db) ((bytes_beq_iff slot m).0 q),
          e,
          p.at m,
          view-renew R (w.session.clock + ttl_ms) slot m w.session.db,
        )
        | inr q ↦
            ground (arith, q, p.at m, view-renew R (w.session.clock + ttl_ms) slot m w.session.db)
      ];
    },
    ground (
      arith,
      (bytes_beq_iff slot slot).1 refl,
      e,
      p.at slot,
      view-renew R (w.session.clock + ttl_ms) slot slot w.session.db,
    ),
  )

  module _ (retries slot : ℕ) (id : Bytes) (ttl_ms interval delay : ℕ)
      (short : interval * 1000 < ttl_ms) where
    -- One interval of the loop.
    run-tick :
        (ticks : ℕ) (w : Shared R)
        → IsCalm w
        → get (key_owner (to_decimal slot)) w.session.db ≡ some id
        → run (shared R) (heartbeat_loop (suc ticks) retries slot id ttl_ms interval delay) w
          ≡ run
              (shared R)
              (heartbeat_loop ticks retries slot id ttl_ms interval delay)
              (slept R interval (renewed (to_decimal slot) ttl_ms w))
    unfolding heartbeat_loop run share
    run-tick ticks w c e =
        run-bind (shared R) (renew_with_retry retries slot id ttl_ms delay) _ w
        ∙ rw (run-renewal retries slot id ttl_ms delay w c e, run, share)

    heartbeat_loop-Holds :
        (ticks : ℕ) (w : Shared R) (expiry : ℕ)
        → expiry ≡ w.session.clock + ticks * (interval * 1000) + ttl_ms
        → expiry < u64_mod
        → IsCalm w
        → IsPool R w.session.db
        → get (key_owner (to_decimal slot)) w.session.db ≡ some id
        → AllForeign R (to_decimal slot) id (interval * 1000) w.session.clock w.others
        → ((run (shared R) (heartbeat_loop ticks retries slot id ttl_ms interval delay) w).0
            ≡ ok tt)
          × Holds R
              (to_decimal slot)
              id
              expiry
              (run
                (shared R)
                (heartbeat_loop ticks retries slot id ttl_ms interval delay)
                w).1.session.db
    unfolding heartbeat_loop run slept
    heartbeat_loop-Holds zero w expiry x l c p e f =
        rw
          (run-bind (shared R) (renew_with_retry retries slot id ttl_ms delay)
            (on_ok (λ _. ret (ok tt))) w)
          (rw (run-renewal retries slot id ttl_ms delay w c e, run)
            (rw (last_expiry expiry w.session.clock (interval * 1000) ttl_ms x)
              (refl, renewed-Holds (to_decimal slot) id ttl_ms w p e (omega arith))))
    heartbeat_loop-Holds (suc ticks) w expiry x l c p e f = rw (run-tick ticks w c e) (
        let n = next_expiry expiry w.session.clock ticks (interval * 1000) ttl_ms x in
        let h =
          disturb-Holds R (to_decimal slot) id (w.session.clock + ttl_ms) (interval * 1000)
            w.session.clock w.others (renewed (to_decimal slot) ttl_ms w).session.db (omega arith)
            (renewed-Holds (to_decimal slot) id ttl_ms w p e (omega arith)) f in
        heartbeat_loop-Holds ticks (slept R interval (renewed (to_decimal slot) ttl_ms w)) expiry n
          l c h.0 (ap (λ v. v.owner) h.1)
          (remaining-AllForeign R (to_decimal slot) id (interval * 1000) w.session.clock w.others
            f))

  -- Take an instance that owns its slot in a pool, on a Redis that answers all its commands, with a heartbeat
  -- whose interval is shorter than the time of the lease. The other clients run any scripts while it sleeps:
  -- no claim of theirs has a clock past the end of that sleep, and none renews or releases the slot in the name
  -- of the instance. Then, as long as the expiry times are u64, no renewal fails however many intervals have
  -- passed: the heartbeat ends with success at SIGTERM, the pool is one still, and the slot is leased to the
  -- instance, and not free, until the time of the lease after its last renewal.
  pub cmd_heartbeat-Holds :
      (ticks retries slot : ℕ) (id : Bytes) (ttl_ms interval delay : ℕ) (w : Shared R)
      → interval * 1000 < ttl_ms
      → w.session.clock + ticks * (interval * 1000) + ttl_ms < u64_mod
      → IsCalm w
      → IsPool R w.session.db
      → get (key_owner (to_decimal slot)) w.session.db ≡ some id
      → AllForeign R (to_decimal slot) id (interval * 1000) w.session.clock w.others
      → ((run (shared R) (cmd_heartbeat ticks retries slot id ttl_ms interval delay) w).0 ≡ ok tt)
        × Holds R
            (to_decimal slot)
            id
            (w.session.clock + ticks * (interval * 1000) + ttl_ms)
            (run
              (shared R)
              (cmd_heartbeat ticks retries slot id ttl_ms interval delay)
              w).1.session.db
  unfolding cmd_heartbeat run share answer
  cmd_heartbeat-Holds ticks retries slot id ttl_ms interval delay w s l c p e f =
      heartbeat_loop-Holds retries slot id ttl_ms interval delay s ticks w _ refl l c p e f
