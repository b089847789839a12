-- ===== src/Cleanup/SafePass.antt =====
-- The whole cleanup pass: the commands that it can send.
use aerosuite.Base.{
  is_some, subst, sym, ap, ◌∙◌, insert, remove, lookup-insert, lookup-remove, bytes_beq, arith, ℕ,
  ◌≡◌, refl, Bytes, Bool, true, false, Option, none, some, List, [], ◌∷◌, bytes_eq, contains, In,
  All, All-In, All-filter, filter, map, lookup, ltb, Bool-cases, inl, inr,
}
use mathlib.Core.Bool.{false≢true}
use aerosuite.Program.{Call, Prog, ret, ◌>>=◌}
use aerosuite.Program.Observed.{Observes, Observes-bind, Follows, Follows-bind}
use aerosuite.Snapshot.{
  SystemSnapshot, BackendStatus, BackendState, active, draining, disabled, unknown, SlotLease,
  AsgInstance, is_in_service, weight_disabled,
}
use aerosuite.Cleanup.{
  write_weight, terminate_instance, section_21_active_leases, disable_unleased,
  section_23_backends_without_leases,
}
use aerosuite.Cleanup.Orphans.{
  FirstSeen, Orphans, elapsed_secs, handle_orphan, handle_instance, handle_instances,
  section_22_orphaned_asg_instances, run_cleanup,
}
use aerosuite.Cleanup.Safety.{
  Readings, no_readings, then_read, Ok, SeenSince, Justified, MayTerminate, orphan, unleased,
  write_weight-Ok,
}
use aerosuite.Cleanup.Safety.Section21.{section_21-Ok}

abbrev or_now : ℕ → Option ℕ → ℕ
or_now now none = now
or_now now (some x) = x

gone_if :
    (id j : Bytes) (timers : FirstSeen) → bytes_beq id j ≡ true → lookup j (remove id timers) ≡ none
gone_if id j timers e = ground (arith, lookup-remove id j timers, e)

set_if :
    (id j : Bytes) (now : ℕ) (timers : FirstSeen)
    → bytes_beq id j ≡ true
    → lookup j (insert id now timers) ≡ some now
set_if id j now timers e = ground (arith, lookup-insert id j now timers, e)

module _ (s : SystemSnapshot) (term_decrements_capacity dry_run : Bool) (grace_secs : ℕ)
    (first_seen : FirstSeen) where
  abbrev owners : List Bytes
  owners = map (λ (l : SlotLease). l.owner_instance_id) s.leases

  abbrev J : Readings → Call → Type 0
  J = Justified s term_decrements_capacity dry_run grace_secs first_seen

  -- Each timer is an old one, or began at a reading of this pass.
  abbrev IsTimed : List ℕ → FirstSeen → Type 0
  IsTimed instants timers =
      (id : Bytes) (since : ℕ)
      → lookup id timers ≡ some since
      → SeenSince s term_decrements_capacity dry_run grace_secs first_seen id since instants

  abbrev Timed : Readings → Prog Orphans → Type 0
  Timed t m = Observes then_read J (λ u o. IsTimed u.instants o.first_seen) t m

  IsTimed-later :
      (now : ℕ) (instants : List ℕ) (timers : FirstSeen)
      → IsTimed instants timers
      → IsTimed (now ∷ instants) timers
  IsTimed-later now instants timers h id since e = elim (h id since e) [
    | inl old ↦ inl old
    | inr new ↦ inr (inr new)
  ]

  IsTimed-remove :
      (id : Bytes) (instants : List ℕ) (timers : FirstSeen)
      → IsTimed instants timers
      → IsTimed instants (remove id timers)
  IsTimed-remove id instants timers h j since e = elim (Bool-cases (bytes_beq id j)) [
    | inl same ↦ absurd (false≢true (ap is_some (sym (gone_if id j timers same) ∙ e)))
    | inr other ↦ h j since (ground (arith, lookup-remove id j timers, other, e))
  ]

  IsTimed-insert :
      (id : Bytes) (now : ℕ) (instants : List ℕ) (timers : FirstSeen)
      → In now instants
      → IsTimed instants timers
      → IsTimed instants (insert id now timers)
  IsTimed-insert id now instants timers i h j since e = elim (Bool-cases (bytes_beq id j)) [
    | inl same ↦
        inr (subst (λ x. In x instants) (ap (or_now now) (sym (set_if id j now timers same) ∙ e)) i)
    | inr other ↦ h j since (ground (arith, lookup-insert id j now timers, other, e))
  ]

  terminate_at :
      (e : Bool)
      → e ≡ dry_run
      → (t : Readings) (id : Bytes)
      → MayTerminate s term_decrements_capacity dry_run grace_secs first_seen t id false
      → Observes then_read J (λ u r. u ≡ t) t (terminate_instance id e false)
  unfolding terminate_instance then_read
  terminate_at true e t id h = refl
  terminate_at false e t id h = ((sym e, h), λ r. refl)

  handle_orphan-Timed :
      (t : Readings) (i : AsgInstance) (o : Orphans) (seen : Option ℕ)
      → In i s.asg
      → is_in_service i ≡ true
      → contains owners i.instance_id ≡ false
      → lookup i.instance_id o.first_seen ≡ seen
      → IsTimed t.instants o.first_seen
      → Timed t (handle_orphan dry_run grace_secs i.instance_id o seen)
  unfolding handle_orphan then_read
  handle_orphan-Timed t i o none member live free e h = (
    tt,
    λ now.
        IsTimed-insert i.instance_id now (now ∷ t.instants) o.first_seen (inl refl)
          (IsTimed-later now t.instants o.first_seen h),
  )
  handle_orphan-Timed t i o (some since) member live free e h = (
    tt,
    λ now. elim (Bool-cases (ltb (elapsed_secs since now) grace_secs)) [
      | inl young ↦ rw young (IsTimed-later now t.instants o.first_seen h)
      | inr old ↦ rw old (
          let u : Readings = then_read t Call.instant_now now in
          Observes-bind then_read J (λ v r. v ≡ u) (λ v o'. IsTimed v.instants o'.first_seen) u
            (terminate_instance i.instance_id dry_run false) _
            (terminate_at dry_run refl u i.instance_id (
              orphan i member live free refl
                (now, t.instants, since, refl, h i.instance_id since e, ground (arith, old)) refl))
            (λ v r same.
              subst (λ (x : Readings). IsTimed x.instants (remove i.instance_id o.first_seen))
                (sym same)
                (IsTimed-remove i.instance_id (now ∷ t.instants) o.first_seen
                  (IsTimed-later now t.instants o.first_seen h))))
    ],
  )

  handle_instances-Timed :
      (t : Readings) (is : List AsgInstance) (o : Orphans)
      → All (λ (i : AsgInstance). In i s.asg × (is_in_service i ≡ true)) is
      → IsTimed t.instants o.first_seen
      → Timed t (handle_instances dry_run grace_secs owners is o)
  unfolding handle_instances handle_instance
  handle_instances-Timed t [] o h k = k
  handle_instances-Timed t (i ∷ is) o h k = elim (Bool-cases (contains owners i.instance_id)) [
    | inl leased ↦
        rw leased (
          handle_instances-Timed t is _ h.1
            (IsTimed-remove i.instance_id t.instants o.first_seen k))
    | inr free ↦ rw free (
        Observes-bind then_read J (λ u o'. IsTimed u.instants o'.first_seen)
          (λ u o'. IsTimed u.instants o'.first_seen) t
          (handle_orphan dry_run grace_secs i.instance_id o (lookup i.instance_id o.first_seen)) _
          (handle_orphan-Timed t i o (lookup i.instance_id o.first_seen) h.0.0 h.0.1 free refl k)
          (λ u o' k'. handle_instances-Timed u is o' h.1 k'))
  ]

  abbrev May : {A : Type 0} → Readings → Prog A → Type 0
  May t m = Ok s term_decrements_capacity dry_run grace_secs first_seen t m

  section_22-Ok :
      (t : Readings) → May t (section_22_orphaned_asg_instances dry_run grace_secs s first_seen)
  unfolding section_22_orphaned_asg_instances
  section_22-Ok t =
      Observes-bind then_read J (λ u (o : Orphans). IsTimed u.instants o.first_seen)
        (λ u r. Unit {0}) t
        (handle_instances dry_run grace_secs owners (filter is_in_service s.asg) _) _
        (handle_instances-Timed t (filter is_in_service s.asg) _
          (All-filter (λ i. In i s.asg) is_in_service s.asg (All-In s.asg)) (λ id since e. inl e))
        (λ u o k. tt)

  disable-Ok :
      (t : Readings) (b : BackendStatus)
      → In b s.backends
      → b.lease ≡ none
      → May t (write_weight b.ip weight_disabled dry_run >>= λ _. ret tt)
  disable-Ok t b i e =
      Follows-bind then_read J t (write_weight b.ip weight_disabled dry_run) (λ _. ret tt)
        (write_weight-Ok s term_decrements_capacity dry_run grace_secs first_seen dry_run t b.ip
          weight_disabled refl (unleased b i e refl refl))
        (λ u r. tt)

  disable_unleased-Ok :
      (t : Readings) (b : BackendStatus) (l : Option SlotLease) (state : BackendState)
      → In b s.backends
      → b.lease ≡ l
      → May t (disable_unleased dry_run b l state)
  unfolding disable_unleased
  disable_unleased-Ok t b (some l) state i e = tt
  disable_unleased-Ok t b none active i e = disable-Ok t b i e
  disable_unleased-Ok t b none draining i e = disable-Ok t b i e
  disable_unleased-Ok t b none disabled i e = tt
  disable_unleased-Ok t b none (unknown v) i e = tt

  section_23-Ok :
      (t : Readings) (bs : List BackendStatus)
      → All (λ b. In b s.backends) bs
      → May t (section_23_backends_without_leases dry_run bs)
  unfolding section_23_backends_without_leases
  section_23-Ok t [] h = tt
  section_23-Ok t (b ∷ bs) h =
      Follows-bind then_read J t (disable_unleased dry_run b b.lease b.weight_state) _
        (disable_unleased-Ok t b b.lease b.weight_state h.0 refl) (λ u _. section_23-Ok u bs h.1)

  -- Whatever the replies to its commands are, a cleanup pass over a snapshot sends no command but
  -- readings of the clock and these, and a dry run none of these. It gives up a slot only if the snapshot has
  -- the ASG group, some InService instance, and a lease of the slot whose owner is known and not InService. It
  -- terminates an instance only if it owns the lease of a draining backend with no connections, is InService,
  -- and the group is above its minimum (with the configured decrement), or if it is InService without a lease
  -- (with no decrement) and at the last reading of the clock the grace period is over since it was first seen
  -- so, by an earlier pass or at an earlier reading in this one. It writes a weight file only of a backend of
  -- the snapshot: disabled if the owner of its lease is gone, if it is drained as above, or if it has no lease,
  -- and active only if its file said disabled and its lease has an InService owner and ends after the last
  -- reading of the clock.
  pub run_cleanup-Justified :
      (is_master : Bool)
      → Follows then_read
          (Justified s term_decrements_capacity dry_run grace_secs first_seen)
          no_readings
          (run_cleanup s dry_run is_master term_decrements_capacity first_seen grace_secs)
  unfolding run_cleanup
  run_cleanup-Justified false = tt
  run_cleanup-Justified true =
      Follows-bind then_read J no_readings
        (section_21_active_leases s dry_run term_decrements_capacity) _
        (section_21-Ok s term_decrements_capacity dry_run grace_secs first_seen no_readings)
        (λ t _.
          Follows-bind then_read J t
            (section_22_orphaned_asg_instances dry_run grace_secs s first_seen) _ (section_22-Ok t)
            (λ u state'.
              Follows-bind then_read J u (section_23_backends_without_leases dry_run s.backends) _
                (section_23-Ok u s.backends (All-In s.backends)) (λ v _. tt)))
