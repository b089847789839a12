-- ===== src/Cleanup/Safety/Section21.antt =====
-- Section 2.1 of the cleanup: each active lease.
use aerosuite.Base.{
  ℕ, sym, ap, ◌∙◌, Bytes, false, ◌&&◌, not, is_empty, to_decimal, ◌≡◌, refl, Bool, true, Option,
  none, some, List, [], ◌∷◌, ◌==◌, bytes_eq, contains, is_some, In, In-find, find-holds, All,
  All-In, arith, Bool-cases, Option-cases, inl, inr, nat_beq, nat_beq_iff,
}
use aerosuite.Program.{Call, Prog, Result, on_ok, ◌>>=?◌}
use aerosuite.Program.Observed.{Follows-bind, Follows-on_ok}
use aerosuite.Cleanup.Orphans.{FirstSeen}
use aerosuite.Snapshot.{
  SystemSnapshot, BackendStatus, BackendState, active, draining, disabled, unknown, SlotLease,
  is_expired, weight_active, weight_disabled,
}
use aerosuite.Snapshot.Leases.{owner_missing, owner_unknown}
use aerosuite.Cleanup.{
  terminate_instance, write_weight, release_slot, in_service_ids, lease_slot_is, backend_of,
  connections, blocks_termination, drop_lease, handle_state, handle_backend, handle_lease,
  handle_leases, implausible, section_21_active_leases,
}
use aerosuite.Cleanup.Safety.{
  Readings, then_read, Ok, MayWrite, MayTerminate, MayRelease, Justified, IsGone, IsHeld, IsDrained,
  owner_gone, drained, missed_claim, write_weight-Ok, terminate-Ok, release_slot-Ok,
}

In-is_empty : {A : Type 0} (a : A) (xs : List A) → In a xs → is_empty xs ≡ false
In-is_empty a [] h = elim h [ ]
In-is_empty a (x ∷ xs) h = refl

module _ (s : SystemSnapshot) (term_decrements_capacity dry_run : Bool) (grace_secs : ℕ)
    (first_seen : FirstSeen) where
  abbrev J : Readings → Call → Type 0
  J = Justified s term_decrements_capacity dry_run grace_secs first_seen

  abbrev May : {A : Type 0} → Readings → Prog A → Type 0
  May t m = Ok s term_decrements_capacity dry_run grace_secs first_seen t m

  then_May :
      {A B : Type 0} (t : Readings) (m : Prog (Result A)) (f : A → Prog (Result B))
      → May t m
      → ((u : Readings) (a : A) → May u (f a))
      → May t (m >>=? f)
  then_May t m f h k =
      Follows-bind then_read J t m (on_ok f) h (λ u r. Follows-on_ok then_read J u f r (k u))

  write_May :
      (t : Readings) (ip : ℕ) (v : Bytes)
      → MayWrite s term_decrements_capacity dry_run grace_secs first_seen t ip v
      → May t (write_weight ip v dry_run)
  write_May t ip v =
      write_weight-Ok s term_decrements_capacity dry_run grace_secs first_seen dry_run t ip v refl

  terminate_May :
      (t : Readings) (id : Bytes) (d : Bool)
      → MayTerminate s term_decrements_capacity dry_run grace_secs first_seen t id d
      → May t (terminate_instance id dry_run d)
  terminate_May t id d =
      terminate-Ok s term_decrements_capacity dry_run grace_secs first_seen dry_run t id d refl

  release_May :
      (t : Readings) (slot : ℕ)
      → MayRelease s term_decrements_capacity dry_run grace_secs first_seen (to_decimal slot)
      → May t (release_slot slot dry_run)
  release_May t slot =
      release_slot-Ok s term_decrements_capacity dry_run grace_secs first_seen dry_run t slot refl

  -- The group was described, and there are InService instances if there are leases.
  abbrev IsPlausible : Type 0
  IsPlausible =
      (is_some s.asg_group ≡ true)
      × ((is_empty (in_service_ids s) && not (is_empty s.leases)) ≡ false)

  drop_lease-Ok :
      (t : Readings) (l : SlotLease) (o : Option BackendStatus)
      → IsGone s term_decrements_capacity dry_run grace_secs first_seen l
      → backend_of s l.slot ≡ o
      → May t (drop_lease l o dry_run)
  unfolding drop_lease backend_of
  drop_lease-Ok t l none g e =
      then_May t (release_slot l.slot dry_run) _ (release_May t l.slot (owner_gone l g refl))
        (λ u _. tt)
  drop_lease-Ok t l (some b) g e =
      let p = λ (x : BackendStatus). lease_slot_is l.slot x.lease in
      then_May t (release_slot l.slot dry_run) _ (release_May t l.slot (owner_gone l g refl)) λ u _.
        write_May u b.ip weight_disabled
          (owner_gone l b g (In-find p s.backends b e) (find-holds p s.backends b e) refl refl)

  handle_state-Ok :
      (t : Readings) (l : SlotLease) (b : BackendStatus) (state : BackendState)
      → IsHeld s term_decrements_capacity dry_run grace_secs first_seen l b
      → b.weight_state ≡ state
      → May t (handle_state s dry_run term_decrements_capacity l b state)
  unfolding handle_state then_read
  handle_state-Ok t l b active h e = tt
  handle_state-Ok t l b draining h e = elim (Bool-cases (nat_beq (connections b.ipvs) 0)) [
    | inl idle ↦ elim (Bool-cases (blocks_termination s.asg_group)) [
      | inl full ↦ rw (idle, full) tt
      | inr spare ↦
          let d : IsDrained s term_decrements_capacity dry_run grace_secs first_seen b = record {
            state = e;
            idle = λ i k. ap connections (sym k) ∙ (nat_beq_iff (connections b.ipvs) 0).0 idle;
            spare = λ g k. ap blocks_termination (sym k) ∙ spare;
          } in
          rw (idle, spare)
            (then_May t (write_weight b.ip weight_disabled dry_run) _
              (write_May t b.ip weight_disabled (drained l b h d refl refl))
              (λ u _.
                terminate_May u l.owner_instance_id term_decrements_capacity
                  (drained l b h d refl refl)))
    ]
    | inr busy ↦ rw busy tt
  ]
  handle_state-Ok t l b disabled h e = (
    tt,
    λ now. elim (Bool-cases (is_expired l now)) [
      | inl old ↦ rw old tt
      | inr live ↦ rw live (
          write_May _ b.ip weight_active
            (missed_claim l b now h e refl (ground (arith, live)) refl refl))
    ],
  )
  handle_state-Ok t l b (unknown v) h e = tt

  handle_backend-Ok :
      (t : Readings) (l : SlotLease) (o : Option BackendStatus)
      → In l s.leases
      → contains (in_service_ids s) l.owner_instance_id ≡ true
      → IsPlausible
      → backend_of s l.slot ≡ o
      → May t (handle_backend s dry_run term_decrements_capacity l o)
  unfolding handle_backend backend_of
  handle_backend-Ok t l none i c q e = tt
  handle_backend-Ok t l (some b) i c q e =
      let p = λ (x : BackendStatus). lease_slot_is l.slot x.lease in
      handle_state-Ok t l b b.weight_state
        (record {
          leased = i;
          known = In-find p s.backends b e;
          joined = find-holds p s.backends b e;
          in_service = c;
          queried = q.0;
        })
        refl

  handle_lease-Ok :
      (t : Readings) (l : SlotLease)
      → In l s.leases
      → IsPlausible
      → May t (handle_lease s dry_run term_decrements_capacity (in_service_ids s) l)
  unfolding handle_lease
  handle_lease-Ok t l i q = elim (Bool-cases (l.owner_instance_id == owner_missing)) [
    | inl m ↦ rw m tt
    | inr m ↦ elim (Bool-cases (l.owner_instance_id == owner_unknown)) [
      | inl u ↦ rw (m, u) tt
      | inr u ↦ elim (Bool-cases (contains (in_service_ids s) l.owner_instance_id)) [
        | inl c ↦ rw (m, u, c) (handle_backend-Ok t l (backend_of s l.slot) i c q refl)
        | inr c ↦
            rw (m, u, c)
              (drop_lease-Ok t l (backend_of s l.slot)
                (record {
                  leased = i;
                  not_missing = m;
                  not_unknown = u;
                  not_in_service = c;
                  queried = q.0;
                  some_in_service = ground (arith, q.1, In-is_empty l s.leases i);
                })
                refl)
      ]
    ]
  ]

  handle_leases-Ok :
      (t : Readings) (ls : List SlotLease)
      → All (λ l. In l s.leases) ls
      → IsPlausible
      → May t (handle_leases s dry_run term_decrements_capacity (in_service_ids s) ls)
  unfolding handle_leases
  handle_leases-Ok t [] h q = tt
  handle_leases-Ok t (l ∷ ls) h q =
      Follows-bind then_read J t
        (handle_lease s dry_run term_decrements_capacity (in_service_ids s) l) _
        (handle_lease-Ok t l h.0 q) (λ u _. handle_leases-Ok u ls h.1 q)

  pub section_21-Ok :
      (t : Readings) → May t (section_21_active_leases s dry_run term_decrements_capacity)
  unfolding section_21_active_leases
  section_21-Ok t = elim (Option-cases s.asg_group) [
    | inl e ↦ rw (e, section_21_active_leases, implausible) tt
    | inr (g, e) ↦ elim (Bool-cases (implausible s dry_run term_decrements_capacity)) [
      | inl bad ↦ rw bad tt
      | inr fine ↦ rw fine (
          handle_leases-Ok t s.leases (All-In s.leases)
            (ground (arith, e), rw (e, implausible) at fine))
    ]
  ]
