-- ===== src/SlotPool/View.antt =====
-- What Redis holds for one slot: its place in the free set, its lease and its owner. Each script
-- acts on these three as a plain function, whatever the database is.
use aerosuite.Base.{
  ℕ, ◌+◌, ◌≡◌, refl, Bytes, Bool, not, ◌&&◌, Option, none, some, List, [], ◌∷◌, ◌==◌, bytes_eq,
  bytes_beq, is_some, contains, if◌then◌else◌, arith,
}
use aerosuite.Program.{available, leases}
use aerosuite.Redis.{Redis, at_most}
use aerosuite.SlotPool.{key_owner, sweep_slot, sweep, swept, take, free_slot}

pub record SlotView : Type 0 where
  pub free : Option ℕ
  pub lease : Option ℕ
  pub owner : Option Bytes

-- The effect of the sweep of an expired lease.
abbrev pub returned : ℕ → SlotView
returned now = record { free = some now; lease = none; owner = none }

abbrev pub expire : ℕ → SlotView → SlotView
expire now v = if at_most now v.lease then returned now else v

abbrev pub held : Bytes → ℕ → SlotView
held owner expiry = record { free = none; lease = some expiry; owner = some owner }

-- A slot is leased exactly when it has an owner, and never both free and leased.
abbrev pub sound : SlotView → Bool
sound v = if is_some v.lease then is_some v.owner && not (is_some v.free) else not (is_some v.owner)

-- Distinct slots have distinct owner keys.
pub key_owner-beq : (s m : Bytes) → bytes_beq (key_owner s) (key_owner m) ≡ bytes_beq s m
unfolding key_owner bytes_beq
key_owner-beq s m = refl

module _ (R : Redis) where
  open R use {
    Db, get, set, del, score, add, rem, up_to, get-set, get-del, get-add, get-rem, score-set,
    score-del, score-add, score-rem, contains-up_to,
  }

  abbrev pub view : Bytes → Db → SlotView
  view m d = record {
    free = score available m d;
    lease = score leases m d;
    owner = get (key_owner m) d;
  }

  pub view-sweep_slot :
      (now : ℕ) (s m : Bytes) (d : Db)
      → view m (sweep_slot R now s d) ≡ (if s == m then returned now else view m d)
  unfolding sweep_slot
  view-sweep_slot now s m d =
      simp (get-del, get-add, get-rem, score-del, score-add, score-rem, key_owner-beq)
        (ground arith)

  pub view-free_slot :
      (now : ℕ) (s m : Bytes) (d : Db)
      → view m (free_slot R s now d) ≡ (if s == m then returned now else view m d)
  unfolding free_slot
  view-free_slot now s m d =
      simp (get-del, get-add, get-rem, score-del, score-add, score-rem, key_owner-beq)
        (ground arith)

  pub view-take :
      (now : ℕ) (owner : Bytes) (ttl_ms : ℕ) (s m : Bytes) (n : ℕ) (d : Db)
      → view m (take R now owner ttl_ms (some (s, n)) d).1
        ≡ (if s == m then held owner (now + ttl_ms) else view m d)
  unfolding take
  view-take now owner ttl_ms s m n d =
      simp (get-set, get-add, get-rem, score-set, score-add, score-rem, key_owner-beq)
        (ground arith)

  pub view-renew :
      (expiry : ℕ) (s m : Bytes) (d : Db)
      → view m (add leases s expiry d)
        ≡ (if s == m then record (view m d) { lease = some expiry } else view m d)
  view-renew expiry s m d = simp (get-add, score-add) (ground arith)

  pub view-sweep :
      (now : ℕ) (xs : List Bytes) (m : Bytes) (d : Db)
      → view m (sweep R now xs d) ≡ (if contains xs m then returned now else view m d)
  unfolding sweep contains
  view-sweep now [] m d = refl
  view-sweep now (x ∷ xs) m d =
      ground (arith, view-sweep now xs m (sweep_slot R now x d), view-sweep_slot now x m d)

  -- The sweep turns each slot whose lease is expired into a free one, and touches no other.
  pub view-swept : (now : ℕ) (m : Bytes) (d : Db) → view m (swept R now d) ≡ expire now (view m d)
  unfolding swept
  view-swept now m d =
      ground (arith, view-sweep now (up_to leases now d) m d, contains-up_to leases now m d)
