-- ===== src/SlotPool/Race.antt =====
-- Two native clients at once: their commands reach the server in any order.
use aerosuite.Base.{
  parse_unsigned, zero, suc, ℕ, ◌+◌, ◌%◌, ◌≡◌, refl, Bytes, Bool, true, false, none, some, List, [],
  ◌∷◌, ◌++◌, ◌==◌, bytes_eq, bytes_beq_iff, u64_mod, if◌then◌else◌, arith, Option-cases, inl, inr,
}
use aerosuite.Program.{
  Prog, ret, call, send, Call, ◌>>=?◌, Result, ok, available, leases, AsgChange,
}
use aerosuite.Redis.{Redis}
use aerosuite.SlotPool.{key_owner}
use aerosuite.SlotPool.Server.{Session, answer, pop_first}
use aerosuite.SlotPool.Publish.{publish_asg_change, slot_number, claim_action}
use aerosuite.SlotPool.Commands.{cmd_claim, sweep_loop, register}
use aerosuite.SlotPool.Equivalence.{calm}

module _ (R : Redis) where
  open R use {
    Db, get, set, del, score, add, rem, up_to, first, get-set, get-add, score-set, score-del,
    score-add, score-rem, first-none, first-score,
  }

  -- One command of a client.
  unfoldable pub step : {A : Type 0} → Prog A → Session R → Prog A × Session R
  unfolding answer
  step (ret a) s = (ret a, s)
  step (call c k) s = (k (answer R c s).0, (answer R c s).1)

  unfoldable pub steps : {A : Type 0} → ℕ → Prog A → Session R → Prog A × Session R
  unfolding step
  steps zero p s = (p, s)
  steps (suc n) p s = steps n (step p s).0 (step p s).1

  -- Two clients over one server. A turn (true, n) gives n commands to the first client, a turn
  -- (false, n) gives n to the second.
  unfoldable pub interleave :
      {A B : Type 0} → List (Bool × ℕ) → Prog A → Prog B → Session R → Prog A × Prog B × Session R
  interleave [] p q s = (p, q, s)
  interleave ((true, n) ∷ more) p q s = interleave more (steps n p s).0 q (steps n p s).1
  interleave ((false, n) ∷ more) p q s = interleave more p (steps n q s).0 (steps n q s).1

  -- A set with one member has it as its first.
  first-single :
      (d : Db) (s : Bytes) (n : ℕ)
      → ((m : Bytes) → score available m d ≡ (if s == m then some n else none))
      → first available d ≡ some (s, n)
  first-single d s n h = elim (Option-cases (first available d)) [
    | inl e ↦ ground (arith, e, first-none available s d e, h s, bytes_beq_iff s s)
    | inr ((m, k), e) ↦ ground (arith, e, first-score available d e, h m, bytes_beq_iff s m)
  ]

  module _ (clock ttl_ms : ℕ) (channel : List AsgChange) (printed : List Bytes) (s : Bytes)
      (d : Db) where
    abbrev swept_by : Db → Db
    swept_by e = del (key_owner s) (add available s clock (rem leases s e))

    abbrev message : AsgChange
    message = record {
      slot = slot_number (parse_unsigned u64_mod s);
      action = claim_action;
      instance_id = none;
    }

    abbrev taken_by : Bytes → Db → Db
    taken_by id e =
        set (key_owner s) id (add leases s ((clock + ttl_ms) % u64_mod) (rem available s e))

    -- Both clients read the clock and the expired leases; then the first claims, then the second.
    abbrev pub late_second : List (Bool × ℕ)
    late_second =
        (true, 2)
        ∷ (false, 2)
        ∷ (true, 3)
        ∷ (true, 1)
        ∷ (true, 4)
        ∷ (false, 3)
        ∷ (false, 1)
        ∷ (false, 4)
        ∷ []

    abbrev pop_next : Bytes → Prog (Result (Unit {0}))
    pop_next id = send (Call.zpopmin available) >>=? register clock id ttl_ms

    abbrev sweep_next : Bytes → Prog (Result (Unit {0}))
    sweep_next id = sweep_loop clock (s ∷ []) >>=? λ _. pop_next id

    module _ (id : Bytes) (e : Db) (ch : List AsgChange) (pr : List Bytes) where
      reads :
          up_to leases clock e ≡ s ∷ []
          → steps 2 (cmd_claim id ttl_ms) (calm R e clock ch pr)
            ≡ (sweep_next id, calm R e clock ch pr)
      unfolding steps answer cmd_claim sweep_loop
      reads h = rw (h, steps, step, answer)

      sweeps :
          steps 3 (sweep_next id) (calm R e clock ch pr)
          ≡ (pop_next id, calm R (swept_by e) clock ch pr)
      unfolding steps answer sweep_loop
      sweeps = refl

      pops :
          first available e ≡ some (s, clock)
          → steps 1 (pop_next id) (calm R e clock ch pr)
            ≡ (register clock id ttl_ms (some (s, clock)), calm R (rem available s e) clock ch pr)
      unfolding steps answer
      pops h = rw (h, steps, step, answer, pop_first)

      registers :
          steps 4
            (register clock id ttl_ms (some (s, clock)))
            (calm R (rem available s e) clock ch pr)
          ≡ (ret (ok tt), calm R (taken_by id e) clock (ch ++ message ∷ []) (pr ++ s ∷ []))
      unfolding steps answer register publish_asg_change
      registers = refl

    free_one :
        (e : Db) (m : Bytes)
        → ((n : Bytes) → s == n ≡ false → score available n e ≡ none)
        → score available m (swept_by e) ≡ (if s == m then some clock else none)
    free_one e m h = simp (score-del, score-add, score-rem) (ground (arith, h m))

    taken_free :
        (id : Bytes) (m : Bytes)
        → ((n : Bytes) → score available n d ≡ none)
        → s == m ≡ false
        → score available m (taken_by id (swept_by d)) ≡ none
    taken_free id m h g = simp (score-set, score-del, score-add, score-rem) (ground (arith, h m))

    -- A slot whose lease has expired, while no slot is free, can be claimed by two native clients at
    -- once: both read it as expired, the first sweeps and claims it, and the sweep of the second then
    -- removes the new lease. Both end with success and print the slot; its owner record names the second.
    pub two_claims_one_slot :
        (a b : Bytes)
        → up_to leases clock d ≡ s ∷ []
        → ((m : Bytes) → score available m d ≡ none)
        → (end : Session R) × (interleave late_second
              (cmd_claim a ttl_ms)
              (cmd_claim b ttl_ms)
              (calm R d clock channel printed)
            ≡ (ret (ok tt), ret (ok tt), end))
          × (end.printed ≡ (printed ++ s ∷ []) ++ s ∷ [])
          × (get (key_owner s) end.db ≡ some b)
    unfolding interleave
    two_claims_one_slot a b e h =
        let f = first-single (swept_by d) s clock (λ m. free_one d m (λ n _. h n)) in
        let d' = taken_by a (swept_by d) in
        let g =
          first-single (swept_by d') s clock (λ m. free_one d' m (λ n k. taken_free a n h k)) in
        (
          calm R (taken_by b (swept_by d')) clock ((channel ++ message ∷ []) ++ message ∷ [])
              ((printed ++ s ∷ []) ++ s ∷ []),
          rw (
            reads a d channel printed e,
            reads b d channel printed e,
            sweeps a d channel printed,
            pops a (swept_by d) channel printed f,
            registers a (swept_by d) channel printed,
            sweeps b d' (channel ++ message ∷ []) (printed ++ s ∷ []),
            pops b (swept_by d') (channel ++ message ∷ []) (printed ++ s ∷ []) g,
            registers b (swept_by d') (channel ++ message ∷ []) (printed ++ s ∷ []),
          ),
          refl,
          rw get-set (ground (arith, bytes_beq_iff (key_owner s) (key_owner s))),
        )
