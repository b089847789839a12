-- ===== src/Cleanup/Orphans.antt =====
-- Section 2.2 of the cleanup pass: InService instances without a lease, and the whole pass.
use aerosuite.Base.{
  ℕ, ◌-◌, ◌/◌, Bytes, Bool, false, Option, none, some, List, [], ◌∷◌, ◌==◌, bytes_eq, not, contains,
  filter, map, lookup, insert, remove, retain, ltb, if◌then◌else◌,
}
use aerosuite.Program.{Call, Prog, ret, send, ◌>>=◌}
use aerosuite.Snapshot.{SystemSnapshot, SlotLease, AsgInstance, is_in_service}
use aerosuite.Cleanup.{
  terminate_instance, section_21_active_leases, section_23_backends_without_leases,
}

-- CleanupState::orphan_first_seen; an Instant is a count of nanoseconds.
abbrev pub FirstSeen : Type 0
FirstSeen = List (Bytes × ℕ)

-- Instant::elapsed().as_secs()
abbrev pub elapsed_secs : ℕ → ℕ → ℕ
elapsed_secs since now = (now - since) / 1000000000

-- The timers and `still_orphaned` as the loop changes them.
pub record Orphans : Type 0 where
  pub first_seen : FirstSeen
  pub still : List Bytes

module _ (dry_run : Bool) (grace_secs : ℕ) where
  unfoldable pub handle_orphan : Bytes → Orphans → Option ℕ → Prog Orphans
  unfolding terminate_instance
  handle_orphan id o none = send Call.instant_now >>= λ now.
      ret (record { first_seen = insert id now o.first_seen; still = id ∷ o.still })
  handle_orphan id o (some since) = send Call.instant_now >>= λ now.
      if ltb (elapsed_secs since now) grace_secs
      then ret (record o { still = id ∷ o.still })
      else (terminate_instance id dry_run false >>= λ _. ret (record {
        first_seen = remove id o.first_seen;
        still = filter (λ j. not (j == id)) o.still;
      }))

  unfoldable pub handle_instance : List Bytes → Bytes → Orphans → Prog Orphans
  unfolding handle_orphan
  handle_instance leased_owners id o =
      if contains leased_owners id
      then ret (record o { first_seen = remove id o.first_seen })
      else handle_orphan id o (lookup id o.first_seen)

  unfoldable pub handle_instances : List Bytes → List AsgInstance → Orphans → Prog Orphans
  unfolding handle_instance
  handle_instances leased_owners [] o = ret o
  handle_instances leased_owners (i ∷ is) o =
      handle_instance leased_owners i.instance_id o >>= handle_instances leased_owners is

  unfoldable pub section_22_orphaned_asg_instances : SystemSnapshot → FirstSeen → Prog FirstSeen
  unfolding handle_instances
  section_22_orphaned_asg_instances snapshot state =
      handle_instances (map (λ (l : SlotLease). l.owner_instance_id) snapshot.leases)
        (filter is_in_service snapshot.asg) (record { first_seen = state; still = [] })
      >>= λ o. ret (retain (contains o.still) o.first_seen)

-- The whole pass; on a backup node it does nothing.
unfoldable pub run_cleanup : SystemSnapshot → Bool → Bool → Bool → FirstSeen → ℕ → Prog FirstSeen
run_cleanup snapshot dry_run is_master term_decrements_capacity state grace_secs =
    if is_master
    then (section_21_active_leases snapshot dry_run term_decrements_capacity >>= λ _.
        section_22_orphaned_asg_instances dry_run grace_secs snapshot state >>= λ state'.
        section_23_backends_without_leases dry_run snapshot.backends >>= λ _. ret state')
    else ret state
