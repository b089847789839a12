-- ===== src/SlotPool/Heartbeat.antt =====
-- The heartbeat of aeroslot/src/main.rs beside other clients, which run scripts while it sleeps.
pub mod Held
use aerosuite.Base.{
  ℕ, zero, suc, ◌+◌, ◌*◌, ◌%◌, ◌≤◌, ◌<◌, ◌≡◌, refl, ap, ◌∙◌, sym, Bytes, Bool, true, false, ◌&&◌,
  Option, some, List, [], ◌∷◌, All, ◌==◌, bytes_eq, bytes_beq, bytes_beq_iff, to_decimal, u64_mod,
  arith, Bool-cases, inl, inr,
}
use native.Mathlib.Nat.{mod-eq_of_lt}
use aerosuite.Program.{
  leases, Script, script_init, script_claim, script_renew, script_release, Call, Reply, Result, ok,
  Env, run, on_ok, ret,
}
use aerosuite.Program.Laws.{run-bind}
use aerosuite.Redis.{Redis}
use aerosuite.SlotPool.{key_owner, lua_renew, lua_release}
use aerosuite.SlotPool.View.{SlotView, view, held, sound, view-renew, view-free_slot}
use aerosuite.SlotPool.Init.{view-init}
use aerosuite.SlotPool.Server.{Session, answer, deliver, eval_script}
use aerosuite.SlotPool.Commands.{
  cmd_heartbeat, heartbeat_loop, renew_with_retry, renew_owned, cmd_renew,
}
use aerosuite.SlotPool.Invariant.{IsPool, script-sound, run_scripts, run_scripts-IsPool}
use aerosuite.SlotPool.Leases.{lua_claim-keeps_live}

-- A script of another client: no claim with a clock past `until`, and no renewal or release of the slot in
-- the name of this instance.
abbrev pub IsForeign : Bytes → Bytes → ℕ → Script → Type 0
IsForeign slot id until (script_init min max) = Unit
IsForeign slot id until (script_claim now owner ttl_ms) = now ≤ until
IsForeign slot id until (script_renew s owner now ttl_ms) = (s == slot && id == owner) ≡ false
IsForeign slot id until (script_release s owner now) = (s == slot && id == owner) ≡ false

module _ (R : Redis) where
  open R use {Db, get, add, score}

  -- A session, and the scripts that the others run during each sleep.
  pub record Shared : Type 0 where
    pub session : Session R
    pub others : List (List Script)

  unfoldable pub disturb : List (List Script) → Db → Db
  unfolding run_scripts
  disturb [] d = d
  disturb (history ∷ others) d = run_scripts R history d

  unfoldable pub remaining : List (List Script) → List (List Script)
  remaining [] = []
  remaining (history ∷ others) = others

  unfoldable pub slept : ℕ → Shared → Shared
  unfolding disturb remaining
  slept n w = record {
    session = record w.session {
      clock = w.session.clock + n * 1000;
      db = disturb w.others w.session.db;
    };
    others = remaining w.others;
  }

  -- Only a sleep takes time.
  unfoldable pub share : (c : Call) → Shared → Reply c × Shared
  unfolding answer slept
  share (Call.sleep_secs n) w = (tt, slept n w)
  share c w = ((answer R c w.session).0, record w { session = (answer R c w.session).1 })

  abbrev pub shared : Env
  shared = record { World = Shared; exec = share }

  -- The slot is leased to the instance until `expiry`, and the rest is a pool.
  abbrev pub Holds : Bytes → Bytes → ℕ → Db → Type 0
  Holds slot id expiry d = IsPool R d × (view R slot d ≡ held id expiry)

  lua_renew-foreign :
      (slot id : Bytes) (expiry : ℕ) (s owner : Bytes) (now ttl_ms : ℕ) (d : Db)
      → view R slot d ≡ held id expiry
      → (s == slot && id == owner) ≡ false
      → view R slot (lua_renew R s owner now ttl_ms d).1 ≡ held id expiry
  unfolding lua_renew
  lua_renew-foreign slot id expiry s owner now ttl_ms d v f = elim (Bool-cases (bytes_beq s slot)) [
    | inl e ↦
        ground (
          arith,
          e,
          ap (λ x. get (key_owner x) d) ((bytes_beq_iff s slot).0 e),
          ap (λ x. x.owner) v,
        )
    | inr e ↦ ground (arith, e, view-renew R (now + ttl_ms) s slot d)
  ]

  lua_release-foreign :
      (slot id : Bytes) (expiry : ℕ) (s owner : Bytes) (now : ℕ) (d : Db)
      → view R slot d ≡ held id expiry
      → (s == slot && id == owner) ≡ false
      → view R slot (lua_release R s owner now d).1 ≡ held id expiry
  unfolding lua_release
  lua_release-foreign slot id expiry s owner now d v f = elim (Bool-cases (bytes_beq s slot)) [
    | inl e ↦
        ground (
          arith,
          e,
          ap (λ x. get (key_owner x) d) ((bytes_beq_iff s slot).0 e),
          ap (λ x. x.owner) v,
        )
    | inr e ↦ ground (arith, e, view-free_slot R now s slot d)
  ]

  script-foreign :
      (slot id : Bytes) (expiry until : ℕ) (s : Script) (d : Db)
      → until < expiry
      → Holds slot id expiry d
      → IsForeign slot id until s
      → view R slot (eval_script R s d).1 ≡ held id expiry
  unfolding eval_script
  script-foreign slot id expiry until (script_init min max) d l h f =
      ground (arith, h.1, view-init R min max slot d)
  script-foreign slot id expiry until (script_claim now owner ttl_ms) d l h f =
      lua_claim-keeps_live R d h.0 now owner ttl_ms slot expiry (ap (λ x. x.lease) h.1)
        (omega arith)
      ∙ h.1
  script-foreign slot id expiry until (script_renew s owner now ttl_ms) d l h f =
      lua_renew-foreign slot id expiry s owner now ttl_ms d h.1 f
  script-foreign slot id expiry until (script_release s owner now) d l h f =
      lua_release-foreign slot id expiry s owner now d h.1 f

  run_scripts-foreign :
      (slot id : Bytes) (expiry until : ℕ) (history : List Script) (d : Db)
      → until < expiry
      → Holds slot id expiry d
      → All (IsForeign slot id until) history
      → Holds slot id expiry (run_scripts R history d)
  unfolding run_scripts
  run_scripts-foreign slot id expiry until [] d l h f = h
  run_scripts-foreign slot id expiry until (s ∷ history) d l h f =
      run_scripts-foreign slot id expiry until history (eval_script R s d).1 l
        (
          record { at = λ m. script-sound R s d m (h.0.at m) },
          script-foreign slot id expiry until s d l h f.0,
        )
        f.1

  -- What the others run is foreign to the instance in every interval of so many ms from `clock` on.
  abbrev pub AllForeign : Bytes → Bytes → ℕ → ℕ → List (List Script) → Type 0
  AllForeign slot id interval_ms clock [] = Unit
  AllForeign slot id interval_ms clock (history ∷ others) =
      All (IsForeign slot id (clock + interval_ms)) history
      × AllForeign slot id interval_ms (clock + interval_ms) others

  pub disturb-Holds :
      (slot id : Bytes) (expiry interval_ms clock : ℕ) (others : List (List Script)) (d : Db)
      → clock + interval_ms < expiry
      → Holds slot id expiry d
      → AllForeign slot id interval_ms clock others
      → Holds slot id expiry (disturb others d)
  unfolding disturb
  disturb-Holds slot id expiry interval_ms clock [] d l h f = h
  disturb-Holds slot id expiry interval_ms clock (history ∷ others) d l h f =
      run_scripts-foreign slot id expiry (clock + interval_ms) history d l h f.0

  pub remaining-AllForeign :
      (slot id : Bytes) (interval_ms clock : ℕ) (others : List (List Script))
      → AllForeign slot id interval_ms clock others
      → AllForeign slot id interval_ms (clock + interval_ms) (remaining others)
  unfolding remaining
  remaining-AllForeign slot id interval_ms clock [] f = tt
  remaining-AllForeign slot id interval_ms clock (history ∷ others) f = f.1
