-- ===== src/Daemon/Loop.antt =====
-- aeroscale/src/bin/aeroscale.rs: the refresh loop, over the waits that it has had so far.
use aerosuite.Base.{ℕ, ◌≡◌, Bytes, true, Option, List, [], ◌∷◌, inl, inr, ◌⊎◌}
use aerosuite.Program.{Call, Prog, ret, send, ◌>>=◌}
use aerosuite.Program.Observed.{Follows, Follows-bind, Follows-weaken}
use aerosuite.Daemon.Copies.{Seen, seen_after}
use aerosuite.Aws.{AwsCredentials}
use aerosuite.Scaler.{Floats}
use aerosuite.Metrics.{Values}
use aerosuite.Daemon.{Settings, DaemonState, cycle}
use aerosuite.Daemon.DryRun.{Dry, cycle-Dry}

-- What ends the wait between two rounds: the interval, or the listener.
pub data Wake : Type 0 where
  elapsed notified : Wake

-- A wait that the listener ends counts as none.
unfoldable pub wait : ℕ → Wake → Prog (Unit {0})
wait snapshot_interval elapsed = send (Call.sleep_secs snapshot_interval)
wait snapshot_interval notified = ret tt

abbrev pub Waits : Call → Type 0
Waits (Call.sleep_secs n) = Unit
Waits _ = ⊥

abbrev pub DryOrWaits : Seen → Call → Type 0
DryOrWaits t c = Dry t c ⊎ Waits c

module _ (X : Floats) (Y : Values) (settings : Settings X) (snapshot_interval : ℕ)
    (parse : Bytes → Option AwsCredentials) where
  -- One round more than waits. What a round leaves is what the next one starts from.
  unfoldable pub refresh_loop : List Wake → DaemonState X Y → Prog (DaemonState X Y)
  unfolding cycle wait
  refresh_loop [] st = cycle X Y settings parse st
  refresh_loop (w ∷ wakes) st = cycle X Y settings parse st >>= λ st'.
      wait snapshot_interval w >>= λ _. refresh_loop wakes st'

  abbrev Quiet : {A : Type 0} → Seen → Prog A → Type 0
  Quiet t m = Follows seen_after DryOrWaits t m

  wait-DryOrWaits : (t : Seen) (w : Wake) → Quiet t (wait snapshot_interval w)
  unfolding wait
  wait-DryOrWaits t elapsed = (inr tt, λ r. tt)
  wait-DryOrWaits t notified = tt

  cycle-Quiet :
      settings.dry_run ≡ true
      → (t : Seen) (st : DaemonState X Y) → Quiet t (cycle X Y settings parse st)
  cycle-Quiet h t st =
      Follows-weaken seen_after Dry DryOrWaits t (cycle X Y settings parse st) (λ u c d. inl d)
        (cycle-Dry X Y settings parse t st h)

  -- In a dry run the daemon, whatever the replies are, sends in all its rounds, beside the waits between
  -- them, nothing but commands that read, requests that describe the group, writes of a weight file with the
  -- trimmed value that Redis has just given for its address, and writes to Redis: of the key of an address
  -- with the trimmed content that its weight file has just shown, and of the time stamp with a number. So no
  -- slot is released, no instance terminated, no capacity set and no weight decided.
  pub refresh_loop-DryOrWaits :
      settings.dry_run ≡ true
      → (wakes : List Wake) (t : Seen) (st : DaemonState X Y)
      → Follows seen_after DryOrWaits t (refresh_loop wakes st)
  unfolding refresh_loop
  refresh_loop-DryOrWaits h [] t st = cycle-Quiet h t st
  refresh_loop-DryOrWaits h (w ∷ wakes) t st =
      Follows-bind seen_after DryOrWaits t (cycle X Y settings parse st) _ (cycle-Quiet h t st)
        (λ u st'.
          Follows-bind seen_after DryOrWaits u (wait snapshot_interval w) _ (wait-DryOrWaits u w)
            (λ v a. refresh_loop-DryOrWaits h wakes v st'))
