-- ===== src/Cleanup/Safety.antt =====
-- Which destructive commands a cleanup pass can send, whatever Redis, AWS and the file system reply.
pub mod Section21
use aerosuite.Base.{
  ℕ, leb_ℤ, sym, is_empty, lookup, ◌⊎◌, ◌≤◌, ◌<◌, ◌-◌, ◌/◌, ◌≡◌, refl, Bytes, Bool, true, false,
  Option, none, some, List, [], ◌∷◌, ◌==◌, bytes_eq, contains, is_some, In, In-find, find-holds,
  All, All-In, map, to_decimal, arith, Bool-cases, Option-cases, inl, inr, nat_beq, nat_beq_iff,
}
use aerosuite.Program.{Call, Reply, Prog, send, available, leases, Emits}
use aerosuite.Program.Observed.{Follows, Follows-on_ok}
use aerosuite.Cleanup.Orphans.{FirstSeen}
use aerosuite.Program.Laws.{Emits-bind, Emits-then}
use aerosuite.SlotPool.{key_owner}
use aerosuite.Snapshot.{
  SystemSnapshot, BackendStatus, BackendState, active, draining, disabled, unknown, SlotLease,
  AsgInstance, AsgGroupInfo, IpvsBackend, is_in_service, is_expired, weight_active, weight_disabled,
}
use aerosuite.Snapshot.Leases.{owner_missing, owner_unknown}
use aerosuite.Cleanup.{
  write_weight, release_slot, terminate_instance, in_service_ids, lease_slot_is, backend_of,
  connections, blocks_termination, drop_lease, handle_state, handle_backend, handle_lease,
  handle_leases, implausible, section_21_active_leases,
}

-- A dry run of an action sends nothing.
module _ (P : Call → Type 0) where
  pub write_weight-Emits :
      (ip : ℕ) (v : Bytes) (dry_run : Bool)
      → (dry_run ≡ false → P (Call.write_weight_file ip v))
      → Emits P (write_weight ip v dry_run)
  unfolding write_weight
  write_weight-Emits ip v true h = tt
  write_weight-Emits ip v false h = (h refl, λ r. tt)

-- The readings of the two clocks: the last one of the wall clock, and those of the other, the last one first.
pub record Readings : Type 0 where
  pub wall : Option ℕ
  pub instants : List ℕ

abbrev pub no_readings : Readings
no_readings = record { wall = none; instants = [] }

unfoldable pub then_read : Readings → (c : Call) → Reply c → Readings
then_read t Call.now_ms now = record t { wall = some now }
then_read t Call.instant_now now = record t { instants = now ∷ t.instants }
then_read t _ r = t

module _ (s : SystemSnapshot) (term_decrements_capacity dry_run : Bool) (grace_secs : ℕ)
    (first_seen : FirstSeen) where
  -- A lease whose owner is known and is not InService, in a snapshot with a group and InService instances.
  pub record IsGone (l : SlotLease) : Type 0 where
    pub leased : In l s.leases
    pub not_missing : (l.owner_instance_id == owner_missing) ≡ false
    pub not_unknown : (l.owner_instance_id == owner_unknown) ≡ false
    pub not_in_service : contains (in_service_ids s) l.owner_instance_id ≡ false
    pub queried : is_some s.asg_group ≡ true
    pub some_in_service : is_empty (in_service_ids s) ≡ false

  -- A lease of an InService owner, and its backend.
  pub record IsHeld (l : SlotLease) (b : BackendStatus) : Type 0 where
    pub leased : In l s.leases
    pub known : In b s.backends
    pub joined : lease_slot_is l.slot b.lease ≡ true
    pub in_service : contains (in_service_ids s) l.owner_instance_id ≡ true
    pub queried : is_some s.asg_group ≡ true

  -- A drained backend may go: IPVS lists no active connection of it, and the group is above its minimum.
  pub record IsDrained (b : BackendStatus) : Type 0 where
    pub state : b.weight_state ≡ draining
    pub idle : (i : IpvsBackend) → b.ipvs ≡ some i → i.active_connections ≡ 0
    pub spare :
        (g : AsgGroupInfo) → s.asg_group ≡ some g → leb_ℤ g.desired_capacity g.min_size ≡ false

  pub data MayWrite (t : Readings) (ip : ℕ) (value : Bytes) : Type 0 where
    owner_gone :
        (l : SlotLease) (b : BackendStatus)
        → IsGone l
        → In b s.backends
        → lease_slot_is l.slot b.lease ≡ true
        → b.ip ≡ ip
        → value ≡ weight_disabled
        → MayWrite t ip value
    drained :
        (l : SlotLease) (b : BackendStatus)
        → IsHeld l b
        → IsDrained b
        → b.ip ≡ ip
        → value ≡ weight_disabled
        → MayWrite t ip value
    missed_claim :
        (l : SlotLease) (b : BackendStatus) (now : ℕ)
        → IsHeld l b
        → b.weight_state ≡ disabled
        → t.wall ≡ some now
        → now < l.expires_ms
        → b.ip ≡ ip
        → value ≡ weight_active
        → MayWrite t ip value
    unleased :
        (b : BackendStatus)
        → In b s.backends
        → b.lease ≡ none
        → b.ip ≡ ip
        → value ≡ weight_disabled
        → MayWrite t ip value

  -- The instance was seen without a lease before: by an earlier pass, or at a reading of the clock in this one.
  abbrev pub SeenSince : Bytes → ℕ → List ℕ → Type 0
  SeenSince id since instants = (lookup id first_seen ≡ some since) ⊎ In since instants

  -- The grace period is over at the last reading of the clock.
  abbrev pub IsOverdue : Readings → Bytes → Type 0
  IsOverdue t id =
      (now : ℕ) × (earlier : List ℕ) × (since : ℕ) × (t.instants ≡ now ∷ earlier)
      × SeenSince id since earlier
      × (grace_secs ≤ (now - since) / 1000000000)

  pub data MayTerminate (t : Readings) (id : Bytes) (decrement : Bool) : Type 0 where
    drained :
        (l : SlotLease) (b : BackendStatus)
        → IsHeld l b
        → IsDrained b
        → l.owner_instance_id ≡ id
        → decrement ≡ term_decrements_capacity
        → MayTerminate t id decrement
    orphan :
        (i : AsgInstance)
        → In i s.asg
        → is_in_service i ≡ true
        → contains (map (λ (l : SlotLease). l.owner_instance_id) s.leases) i.instance_id ≡ false
        → i.instance_id ≡ id
        → IsOverdue t id
        → decrement ≡ false
        → MayTerminate t id decrement

  -- The slot text of a lease that may be given up.
  pub data MayRelease (slot : Bytes) : Type 0 where
    owner_gone : (l : SlotLease) → IsGone l → to_decimal l.slot ≡ slot → MayRelease slot

  abbrev pub Justified : Readings → Call → Type 0
  Justified t Call.now_ms = Unit
  Justified t Call.instant_now = Unit
  Justified t (Call.del key) =
      (dry_run ≡ false) × (slot : Bytes) × MayRelease slot × (key ≡ key_owner slot)
  Justified t (Call.zrem leases slot) = (dry_run ≡ false) × MayRelease slot
  Justified t (Call.zadd available slot now) = (dry_run ≡ false) × MayRelease slot
  Justified t (Call.write_weight_file ip value) = (dry_run ≡ false) × MayWrite t ip value
  Justified t (Call.terminate id decrement) = (dry_run ≡ false) × MayTerminate t id decrement
  Justified t _ = ⊥

  -- A program that may follow these readings.
  abbrev pub Ok : {A : Type 0} → Readings → Prog A → Type 0
  Ok t m = Follows then_read Justified t m

  pub write_weight-Ok :
      (d : Bool) (t : Readings) (ip : ℕ) (v : Bytes)
      → d ≡ dry_run
      → MayWrite t ip v
      → Ok t (write_weight ip v d)
  unfolding write_weight
  write_weight-Ok true t ip v e h = tt
  write_weight-Ok false t ip v e h = ((sym e, h), λ r. tt)

  pub terminate-Ok :
      (e : Bool) (t : Readings) (id : Bytes) (d : Bool)
      → e ≡ dry_run
      → MayTerminate t id d
      → Ok t (terminate_instance id e d)
  unfolding terminate_instance
  terminate-Ok true t id d e h = tt
  terminate-Ok false t id d e h = ((sym e, h), λ r. tt)

  pub release_slot-Ok :
      (d : Bool) (t : Readings) (slot : ℕ)
      → d ≡ dry_run
      → MayRelease (to_decimal slot)
      → Ok t (release_slot slot d)
  unfolding release_slot then_read
  release_slot-Ok true t slot e h = tt
  release_slot-Ok false t slot e h = (
    tt,
    λ now. (
      (sym e, _, h, refl),
      λ q. Follows-on_ok then_read Justified _ _ q (λ u.
          ((sym e, h), λ r. Follows-on_ok then_read Justified _ _ r (λ v. ((sym e, h), λ x. tt)))),
    ),
  )
