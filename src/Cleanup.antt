-- ===== src/Cleanup.antt =====
-- aeroscale/src/cleanup/mod.rs: the cleanup pass over a snapshot.
pub mod Orphans
pub mod Safety
pub mod SafePass
use aerosuite.Base.{
  ℕ, ◌≡◌, Bytes, codes, Bool, true, false, not, ◌&&◌, ◌||◌, Option, none, some, List, [], ◌∷◌, ◌==◌,
  bytes_eq, nat_beq, contains, filter, find, map, is_empty, leb, to_decimal, if◌then◌else◌,
}
use aerosuite.Program.{
  Call, Prog, ret, send, Result, ok, err, available, leases, ◌>>=◌, ◌>>◌, ◌>>=?◌,
}
use aerosuite.SlotPool.{key_owner}
use aerosuite.Snapshot.{
  SystemSnapshot, BackendStatus, BackendState, active, draining, disabled, unknown, SlotLease,
  AsgInstance, AsgGroupInfo, IpvsBackend, is_in_service, is_expired, would_violate_min,
  weight_active, weight_disabled,
}
use aerosuite.Snapshot.Leases.{owner_missing, owner_unknown}

-- The weight file of an address holds the text.
unfoldable pub write_weight : ℕ → Bytes → Bool → Prog (Result (Unit {0}))
write_weight ip value true = ret (ok tt)
write_weight ip value false = send (Call.write_weight_file ip value)

unfoldable pub release_slot : ℕ → Bool → Prog (Result (Unit {0}))
release_slot slot true = ret (ok tt)
release_slot slot false = send Call.now_ms >>= λ now.
    send (Call.del (key_owner (to_decimal slot))) >>=? λ _.
    send (Call.zrem leases (to_decimal slot)) >>=? λ _.
    send (Call.zadd available (to_decimal slot) now)

unfoldable pub terminate_instance : Bytes → Bool → Bool → Prog (Result (Unit {0}))
terminate_instance id true decrement = ret (ok tt)
terminate_instance id false decrement = send (Call.terminate id decrement)

-- The InService instances, which alone are valid lease owners.
unfoldable pub in_service_ids : SystemSnapshot → List Bytes
in_service_ids s = map (λ (i : AsgInstance). i.instance_id) (filter is_in_service s.asg)

abbrev lease_slot_is : ℕ → Option SlotLease → Bool
lease_slot_is slot none = false
lease_slot_is slot (some l) = nat_beq l.slot slot

-- The backend of a lease, if its address is known.
unfoldable pub backend_of : SystemSnapshot → ℕ → Option BackendStatus
backend_of s slot = find (λ (b : BackendStatus). lease_slot_is slot b.lease) s.backends

abbrev connections : Option IpvsBackend → ℕ
connections none = 0
connections (some i) = i.active_connections

abbrev blocks_termination : Option AsgGroupInfo → Bool
blocks_termination none = false
blocks_termination (some g) = would_violate_min g

-- Owner no longer in the ASG.
unfoldable pub drop_lease : SlotLease → Option BackendStatus → Bool → Prog (Result (Unit {0}))
unfolding release_slot write_weight
drop_lease l none dry_run = release_slot l.slot dry_run >>=? λ _. ret (ok tt)
drop_lease l (some b) dry_run =
    release_slot l.slot dry_run >>=? λ _. write_weight b.ip weight_disabled dry_run

module _ (snapshot : SystemSnapshot) (dry_run term_decrements_capacity : Bool) where
  -- Owner is alive: by the weight state of its backend.
  unfoldable pub handle_state : SlotLease → BackendStatus → BackendState → Prog (Result (Unit {0}))
  unfolding write_weight terminate_instance
  handle_state l b active = ret (ok tt)
  handle_state l b draining =
      if nat_beq (connections b.ipvs) 0
      then (if blocks_termination snapshot.asg_group
          then ret (ok tt)
          else (write_weight b.ip weight_disabled dry_run >>=? λ _.
              terminate_instance l.owner_instance_id dry_run term_decrements_capacity))
      else ret (ok tt)
  handle_state l b disabled = send Call.now_ms >>= λ now.
      if is_expired l now then ret (ok tt) else write_weight b.ip weight_active dry_run
  handle_state l b (unknown v) = ret (ok tt)

  unfoldable pub handle_backend : SlotLease → Option BackendStatus → Prog (Result (Unit {0}))
  unfolding handle_state
  handle_backend l none = ret (ok tt)
  handle_backend l (some b) = handle_state l b b.weight_state

  unfoldable pub handle_lease : List Bytes → SlotLease → Prog (Result (Unit {0}))
  unfolding drop_lease handle_backend
  handle_lease asg_ids l =
      if l.owner_instance_id == owner_missing
      then ret (ok tt)
      else if l.owner_instance_id == owner_unknown
      then ret (ok tt)
      else if contains asg_ids l.owner_instance_id
      then handle_backend l (backend_of snapshot l.slot)
      else drop_lease l (backend_of snapshot l.slot) dry_run

  -- An error of one lease is logged, and the next lease follows.
  unfoldable pub handle_leases : List Bytes → List SlotLease → Prog (Unit {0})
  unfolding handle_lease
  handle_leases asg_ids [] = ret tt
  handle_leases asg_ids (l ∷ ls) = handle_lease asg_ids l >>= λ _. handle_leases asg_ids ls

  -- The sanity guard: no group, or no InService instance although there are leases.
  unfoldable pub implausible : Bool
  implausible = elim snapshot.asg_group [
    | none ↦ true
    | some g ↦ is_empty (in_service_ids snapshot) && not (is_empty snapshot.leases)
  ]

  unfoldable pub section_21_active_leases : Prog (Unit {0})
  unfolding implausible handle_leases
  section_21_active_leases =
      if implausible then ret tt else handle_leases (in_service_ids snapshot) snapshot.leases

-- One backend of section 2.3; a failed write is logged.
unfoldable pub disable_unleased :
    Bool → BackendStatus → Option SlotLease → BackendState → Prog (Unit {0})
unfolding write_weight
disable_unleased dry_run b (some l) state = ret tt
disable_unleased dry_run b none active = write_weight b.ip weight_disabled dry_run >>= λ _. ret tt
disable_unleased dry_run b none draining = write_weight b.ip weight_disabled dry_run >>= λ _. ret tt
disable_unleased dry_run b none disabled = ret tt
disable_unleased dry_run b none (unknown v) = ret tt

unfoldable pub section_23_backends_without_leases : Bool → List BackendStatus → Prog (Unit {0})
unfolding disable_unleased
section_23_backends_without_leases dry_run [] = ret tt
section_23_backends_without_leases dry_run (b ∷ bs) =
    disable_unleased dry_run b b.lease b.weight_state >>= λ _.
    section_23_backends_without_leases dry_run bs
