-- ===== src/SlotPool/Equivalence.antt =====
-- The native client against the Lua client, where each command of a call is answered and no other
-- client's command comes between.
use aerosuite.Base.{
  ℕ, zero, suc, ◌+◌, ◌-◌, ◌<◌, ◌≡◌, refl, ◌∙◌, Bytes, Bool, true, false, Option, none, some, List,
  [], ◌∷◌, is_some, ltb, to_decimal, u64_mod, Bool-cases, Option-cases, inl, inr, bytes_beq,
}
use native.Mathlib.Nat.{mod-eq_of_lt}
use aerosuite.Program.{send, Call, Result, ok, err, available, leases, AsgChange, run, ◌>>=?◌}
use aerosuite.Program.Laws.{run-bind}
use aerosuite.Redis.{Redis}
use aerosuite.SlotPool.{
  key_owner, holds_text, sweep, sweep_slot, swept, take, lua_claim, lua_renew, lua_init,
  lua_init_loop, lua_init_slot,
}
use aerosuite.SlotPool.Server.{Session, server, answer, pop_first}
use aerosuite.SlotPool.Commands.{
  cmd_init, init_loop, init_slot, cmd_claim, sweep_loop, register, cmd_renew, renew_owned,
}
use aerosuite.SlotPool.Commands.Lua.{lua_cmd_init, lua_cmd_claim, lua_claimed, lua_cmd_renew}

-- Whether the process exits with 0.
abbrev pub succeeds : {A : Type 0} → Result A → Bool
succeeds (ok a) = true
succeeds (err e) = false

ruleset renewal = (succeeds, run, answer, renew_owned, lua_renew, holds_text)

module _ (R : Redis) where
  open R use {Db, get, score, first, up_to}

  -- A session whose network answers every command.
  abbrev pub calm : Db → ℕ → List AsgChange → List Bytes → Session R
  calm d clock channel printed = record {
    db = d;
    clock = clock;
    channel = channel;
    printed = printed;
    fates = [];
  }

  module _ (clock : ℕ) (channel : List AsgChange) (printed : List Bytes) where
    run-sweep_loop :
        (now : ℕ) (xs : List Bytes) (d : Db)
        → run (server R) (sweep_loop now xs) (calm d clock channel printed)
          ≡ (ok tt, calm (sweep R now xs d) clock channel printed)
    unfolding sweep_loop run answer sweep sweep_slot
    run-sweep_loop now [] d = refl
    run-sweep_loop now (x ∷ xs) d = run-sweep_loop now xs (sweep_slot R now x d)

    pop_run :
        (id : Bytes) (ttl_ms : ℕ) (o : Option (Bytes × ℕ)) (d : Db)
        → clock + ttl_ms < u64_mod
        → first available d ≡ o
        → run
            (server R)
            (send (Call.zpopmin available) >>=? register clock id ttl_ms)
            (calm d clock channel printed)
          ≡ run
              (server R)
              (lua_claimed (take R clock id ttl_ms o d).0)
              (calm (take R clock id ttl_ms o d).1 clock channel printed)
    unfolding register lua_claimed run answer take
    pop_run id ttl_ms none d h e = rw (e, run, answer, pop_first)
    pop_run id ttl_ms (some (s, n)) d h e = rw (e, run, answer, pop_first, mod-eq_of_lt h)

    -- On a Redis that answers every command and serves no one else meanwhile, and where the expiry
    -- time is a u64, `claim` of the native client and of the Lua client give the same result and leave
    -- the same database, messages and printed slot.
    pub cmd_claim-lua_cmd_claim :
        (id : Bytes) (ttl_ms : ℕ) (d : Db)
        → clock + ttl_ms < u64_mod
        → run (server R) (cmd_claim id ttl_ms) (calm d clock channel printed)
          ≡ run (server R) (lua_cmd_claim id ttl_ms) (calm d clock channel printed)
    unfolding cmd_claim lua_cmd_claim run answer lua_claim
    cmd_claim-lua_cmd_claim id ttl_ms d h =
        run-bind (server R) (sweep_loop clock (up_to leases clock d)) _
          (calm d clock channel printed)
        ∙ rw (run-sweep_loop clock (up_to leases clock d) d)
            (pop_run id ttl_ms (first available (swept R clock d)) (swept R clock d) h refl)

    run-init_slot :
        (slot : ℕ) (d : Db)
        → run (server R) (init_slot (to_decimal slot)) (calm d clock channel printed)
          ≡ (ok (lua_init_slot R slot d).0, calm (lua_init_slot R slot d).1 clock channel printed)
    unfolding init_slot run answer lua_init_slot
    run-init_slot slot d = elim (Bool-cases (is_some (score leases (to_decimal slot) d))) [
      | inl h ↦ rw (h, run)
      | inr h ↦ elim (Bool-cases (is_some (score available (to_decimal slot) d))) [
        | inl g ↦ rw (h, g, run, answer)
        | inr g ↦ rw (h, g, run, answer)
      ]
    ]

    run-init_loop :
        (rounds slot : ℕ) (d : Db)
        → run (server R) (init_loop rounds slot) (calm d clock channel printed) ≡ (
          ok (lua_init_loop R rounds slot d).0,
          calm (lua_init_loop R rounds slot d).1 clock channel printed,
        )
    unfolding init_loop run answer lua_init_loop
    run-init_loop zero slot d = refl
    run-init_loop (suc rounds) slot d =
        run-bind (server R) (init_slot (to_decimal slot)) _ (calm d clock channel printed)
        ∙ rw (run-init_slot slot d) (
            run-bind (server R) (init_loop rounds (slot + 1)) _
              (calm (lua_init_slot R slot d).1 clock channel printed)
            ∙ rw (run-init_loop rounds (slot + 1) (lua_init_slot R slot d).1))

    -- On a Redis that answers every command and serves no one else meanwhile, `init` of the native client
    -- and of the Lua client give the same number of added slots, or the same refusal, and leave the same
    -- database, messages and output.
    pub cmd_init-lua_cmd_init :
        (min max : ℕ) (d : Db)
        → run (server R) (cmd_init min max) (calm d clock channel printed)
          ≡ run (server R) (lua_cmd_init min max) (calm d clock channel printed)
    unfolding cmd_init lua_cmd_init run answer lua_init
    cmd_init-lua_cmd_init min max d = elim (Bool-cases (ltb max min)) [
      | inl h ↦ rw (h)
      | inr h ↦ rw (h, run-init_loop (max + 1 - min) min d)
    ]

    -- On a Redis that answers every command and serves no one else meanwhile, and where the expiry time is
    -- a u64, `renew` of the native client succeeds exactly when the one of the Lua client does, and both
    -- leave the same database, messages and output.
    pub cmd_renew-lua_cmd_renew :
        (slot : ℕ) (id : Bytes) (ttl_ms : ℕ) (d : Db)
        → clock + ttl_ms < u64_mod
        → (succeeds (run (server R) (cmd_renew slot id ttl_ms) (calm d clock channel printed)).0
            ≡ succeeds
                (run (server R) (lua_cmd_renew slot id ttl_ms) (calm d clock channel printed)).0)
          × ((run (server R) (cmd_renew slot id ttl_ms) (calm d clock channel printed)).1
              ≡ (run (server R) (lua_cmd_renew slot id ttl_ms) (calm d clock channel printed)).1)
    unfolding cmd_renew lua_cmd_renew run answer lua_renew
    cmd_renew-lua_cmd_renew slot id ttl_ms d h =
        elim (Option-cases (get (key_owner (to_decimal slot)) d)) [
          | inl e ↦ rw (e, renewal) (refl, refl)
          | inr (o, e) ↦ elim (Bool-cases (bytes_beq o id)) [
            | inl g ↦ rw (e, renewal) (rw (g, renewal) (refl, rw (mod-eq_of_lt h)))
            | inr g ↦ rw (e, renewal) (rw (g, renewal) (refl, refl))
          ]
        ]
