-- ===== src/Daemon/DryRun.antt =====
-- What a round of the daemon still writes in a dry run.
use aerosuite.Daemon.Reads.{collect-Passive}
use aerosuite.Base.{
  ℕ, ◌≡◌, refl, sym, ◌∙◌, Bytes, Bool, true, false, Option, none, some, inl, inr, ◌⊎◌,
}
use mathlib.Core.Bool.{false≢true}
use aerosuite.Program.{Call, Prog, Result, ok, err, Emits, leases, available}
use aerosuite.Program.Observed.{
  Follows, Follows-bind, Emits-Follows, Follows-weaken, Observes-Emits,
}
use aerosuite.Daemon.Copies.{
  Seen, seen_after, ReadsOrCopies, ReadsOrPersists, IsPersist, sync_if_backup-Copying,
  persist_if_master-Persisting,
}
use aerosuite.Aws.{AwsCredentials}
use aerosuite.Snapshot.{SystemSnapshot}
use aerosuite.Snapshot.Leases.{Cache}
use aerosuite.Cleanup.Safety.{Justified, Readings, no_readings, then_read}
use aerosuite.Cleanup.SafePass.{run_cleanup-Justified}
use aerosuite.Cleanup.Orphans.{FirstSeen, run_cleanup}
use aerosuite.Scaler.{Floats, ScalerState}
use aerosuite.Scaler.Selection.{Looks, no_looks, then_look}
use aerosuite.Scaler.Safety.{PermittedNow}
use aerosuite.Scaler.Safety.Whole.{run_scaler-PermittedNow}
use aerosuite.Scaler.Pass.{run_scaler}
use aerosuite.Metrics.{Values}
use aerosuite.Collect.{collect}
use aerosuite.Vrrp.{is_master}
use aerosuite.Daemon.{
  Settings, DaemonState, refresh_credentials, resolve_role, sync_if_backup, persist_if_master,
  scale_if_master, act_on, cycle_as, cycle,
}
use aerosuite.Daemon.Passive.{is_passive, Passive, refresh_credentials-Passive}

-- Reads, copies of weights to the files, and copies of the files to the weight keys.
abbrev pub Dry : Seen → Call → Type 0
Dry t c = ReadsOrCopies t c ⊎ IsPersist t c

abbrev StaysDry : {A : Type 0} → Seen → Prog A → Type 0
StaysDry t m = Follows seen_after Dry t m

Passive-Dry : {A : Type 0} (t : Seen) (m : Prog A) → Emits Passive m → StaysDry t m
Passive-Dry t m = Emits-Follows seen_after Dry Passive t m (λ u c p. inl (inl p))

sync-Dry : (master : Bool) (t : Seen) → StaysDry t (sync_if_backup master)
sync-Dry master t =
    Follows-weaken seen_after ReadsOrCopies Dry t (sync_if_backup master) (λ u c p. inl p)
      (sync_if_backup-Copying master t)

persist-Dry : (master : Bool) (t : Seen) → StaysDry t (persist_if_master master)
persist-Dry master t =
    Follows-weaken seen_after ReadsOrPersists Dry t (persist_if_master master)
      (λ u c p. elim p [ inl q ↦ inl (inl q) | inr q ↦ inr q ])
      (persist_if_master-Persisting master t)

resolve_role-Passive : (vip : Option ℕ) → Emits Passive (resolve_role vip)
unfolding resolve_role is_master Passive is_passive
resolve_role-Passive none = tt
resolve_role-Passive (some vip) = (refl, λ r. tt)

-- In a dry run a cleanup pass and a scaler pass only read the clocks and the interface.
module _ (dry_run : Bool) (dry : dry_run ≡ true) where
  not_dry : {A : Type 0} → dry_run ≡ false → A
  not_dry e = absurd (false≢true (sym e ∙ dry))

  Justified-Passive :
      (s : SystemSnapshot) (term_decrements_capacity : Bool) (grace_secs : ℕ)
      (first_seen : FirstSeen) (t : Readings) (c : Call)
      → Justified s term_decrements_capacity dry_run grace_secs first_seen t c
      → Passive c
  unfolding Passive is_passive
  Justified-Passive s d g f t Call.now_ms j = refl
  Justified-Passive s d g f t Call.instant_now j = refl
  Justified-Passive s d g f t (Call.del key) j = not_dry j.0
  Justified-Passive s d g f t (Call.zrem leases slot) j = not_dry j.0
  Justified-Passive s d g f t (Call.zadd available slot now) j = not_dry j.0
  Justified-Passive s d g f t (Call.write_weight_file ip value) j = not_dry j.0
  Justified-Passive s d g f t (Call.terminate id decrement) j = not_dry j.0
  Justified-Passive s d g f t _ j = absurd j

  PermittedNow-Passive :
      (X : Floats) (settings : Settings X) (s : SystemSnapshot) (asg_name : Bytes)
      (st : ScalerState X) (t : Looks) (c : Call)
      → PermittedNow X settings.scale_config s asg_name dry_run st t c
      → Passive c
  unfolding Passive is_passive
  PermittedNow-Passive X settings s asg_name st t Call.now_ms j = refl
  PermittedNow-Passive X settings s asg_name st t Call.instant_now j = refl
  PermittedNow-Passive X settings s asg_name st t Call.read_proc_net_dev j = refl
  PermittedNow-Passive X settings s asg_name st t (Call.set_desired name n) j = not_dry j.2.0
  PermittedNow-Passive X settings s asg_name st t (Call.write_weight_file ip v) j = not_dry j.2.0
  PermittedNow-Passive X settings s asg_name st t _ j = absurd j.2

module _ (X : Floats) (settings : Settings X) (dry : settings.dry_run ≡ true) where
  scale-Passive :
      (master : Bool) (s : SystemSnapshot) (st : ScalerState X)
      → Emits Passive (scale_if_master X settings master s st)
  unfolding scale_if_master
  scale-Passive true s st =
      Observes-Emits then_look
        (PermittedNow X settings.scale_config s settings.asg_name settings.dry_run st) Passive
        (λ u a. Unit {0}) no_looks
        (run_scaler X settings.scale_config s settings.asg_name settings.dry_run st)
        (PermittedNow-Passive settings.dry_run dry X settings s settings.asg_name st)
        (run_scaler-PermittedNow X settings.scale_config s settings.asg_name settings.dry_run st)
  scale-Passive false s st = tt

module _ (X : Floats) (Y : Values) (settings : Settings X) (dry : settings.dry_run ≡ true) where
  act_on-Dry :
      (t : Seen) (master : Bool) (st : DaemonState X Y) (found : Result SystemSnapshot × Cache)
      → StaysDry t (act_on X Y settings master st found)
  unfolding act_on
  act_on-Dry t master st (err e, cache) = tt
  act_on-Dry t master st (ok s, cache) =
      let pass =
        run_cleanup s settings.dry_run master settings.term_decrements_capacity st.cleanup_state
          settings.orphan_grace_secs in
      Follows-bind seen_after Dry t pass _
        (Passive-Dry t pass (
          Observes-Emits then_read
            (Justified s settings.term_decrements_capacity settings.dry_run
              settings.orphan_grace_secs st.cleanup_state)
            Passive (λ u a. Unit {0}) no_readings pass
            (Justified-Passive settings.dry_run dry s settings.term_decrements_capacity
              settings.orphan_grace_secs st.cleanup_state)
            (run_cleanup-Justified s settings.term_decrements_capacity settings.dry_run
              settings.orphan_grace_secs st.cleanup_state master)))
        (λ u cleanup_state'.
          Follows-bind seen_after Dry u (persist_if_master master) _ (persist-Dry master u) (λ v a.
            Follows-bind seen_after Dry v (scale_if_master X settings master s st.scaler_state) _
              (Passive-Dry v (scale_if_master X settings master s st.scaler_state)
                (scale-Passive X settings dry master s st.scaler_state))
              (λ w st'. tt)))

  cycle_as-Dry :
      (t : Seen) (st : DaemonState X Y) (master : Bool)
      → StaysDry t (cycle_as X Y settings st master)
  unfolding cycle_as
  cycle_as-Dry t st master =
      Follows-bind seen_after Dry t (sync_if_backup master) _ (sync-Dry master t) (λ u a.
        Follows-bind seen_after Dry u
          (collect settings.slot_network settings.region settings.asg_name st.owner_cache) _
          (Passive-Dry u
            (collect settings.slot_network settings.region settings.asg_name st.owner_cache)
            (collect-Passive settings.slot_network settings.region settings.asg_name
              st.owner_cache))
          (λ v found. act_on-Dry v master st found))

-- Whatever the replies are, a dry round, of a master too, only reads, describes the group, and copies weights
-- between Redis and the weight files as it was given them.
pub cycle-Dry :
    (X : Floats) (Y : Values) (settings : Settings X) (parse : Bytes → Option AwsCredentials)
    (t : Seen) (st : DaemonState X Y)
    → settings.dry_run ≡ true
    → Follows seen_after Dry t (cycle X Y settings parse st)
unfolding cycle
cycle-Dry X Y settings parse t st dry =
    Follows-bind seen_after Dry t (refresh_credentials parse st.creds) _
      (Passive-Dry t (refresh_credentials parse st.creds)
        (refresh_credentials-Passive parse st.creds))
      (λ u creds'.
        Follows-bind seen_after Dry u (resolve_role settings.vip_inside) _
          (Passive-Dry u (resolve_role settings.vip_inside)
            (resolve_role-Passive settings.vip_inside))
          (λ v master. cycle_as-Dry X Y settings dry v (record st { creds = creds' }) master))
