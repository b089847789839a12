-- ===== src/Daemon.antt =====
-- aeroscale/src/bin/aeroscale.rs: one round of the refresh loop. Its state, with the store of the metrics,
-- lives from round to round. The log is left out.
pub mod Startup
pub mod Passive
pub mod Copies
pub mod Master
pub mod DryRun
pub mod Reads
pub mod Loop
use aerosuite.Base.{ℕ, ◌*◌, Bytes, Bool, true, false, Option, none, some, if◌then◌else◌}
use aerosuite.Program.{Call, Prog, ret, send, Result, ok, err, ◌>>=◌}
use aerosuite.Aws.{AwsCredentials, is_expiring_soon, fetch_imds_credentials}
use aerosuite.SlotNetwork.{SlotNetwork}
use aerosuite.Snapshot.{SystemSnapshot}
use aerosuite.Snapshot.Leases.{Cache}
use aerosuite.Cleanup.Orphans.{FirstSeen, run_cleanup}
use aerosuite.WeightSync.{sync_from_redis, persist}
use aerosuite.Scaler.{Floats, ScaleConfig, ScalerState}
use aerosuite.Scaler.Pass.{run_scaler}
use aerosuite.Collect.{collect}
use aerosuite.Metrics.{Values, MetricsState, update_from_ipvs, update_scaler_bandwidth}
use aerosuite.Vrrp.{is_master}

pub record Settings (X : Floats) : Type 0 where
  pub region : Bytes
  pub asg_name : Bytes
  pub dry_run : Bool
  pub slot_network : SlotNetwork
  pub vip_inside : Option ℕ
  pub term_decrements_capacity : Bool
  pub orphan_grace_secs : ℕ
  pub scale_config : ScaleConfig X

pub record DaemonState (X : Floats) (Y : Values) : Type 0 where
  pub creds : AwsCredentials
  pub owner_cache : Cache
  pub cleanup_state : FirstSeen
  pub scaler_state : ScalerState X
  pub metrics_store : MetricsState Y

-- CREDS_REFRESH_AHEAD, in milliseconds
abbrev creds_refresh_ahead : ℕ
creds_refresh_ahead = 5 * 60 * 1000

abbrev refreshed : AwsCredentials → Result AwsCredentials → AwsCredentials
refreshed old (ok new) = new
refreshed old (err e) = old

-- The clock is read only for credentials that expire.
unfoldable pub expiring : AwsCredentials → Option ℕ → Prog Bool
unfolding is_expiring_soon
expiring creds none = ret false
expiring creds (some expiry) =
    send Call.now_ms >>= λ now. ret (is_expiring_soon creds now creds_refresh_ahead)

-- Credentials near their end are fetched anew; on failure the old ones stay.
unfoldable pub refresh_credentials :
    (Bytes → Option AwsCredentials) → AwsCredentials → Prog AwsCredentials
unfolding expiring fetch_imds_credentials
refresh_credentials parse creds = expiring creds creds.expiration >>= λ needs_refresh.
    if needs_refresh
    then (fetch_imds_credentials parse >>= λ r. ret (refreshed creds r))
    else ret creds

-- Without an address the node always counts as master.
unfoldable pub resolve_role : Option ℕ → Prog Bool
unfolding is_master
resolve_role none = ret true
resolve_role (some vip) = is_master vip

unfoldable pub sync_if_backup : Bool → Prog (Unit {0})
unfolding sync_from_redis
sync_if_backup true = ret tt
sync_if_backup false = sync_from_redis >>= λ _. ret tt

unfoldable pub persist_if_master : Bool → Prog (Unit {0})
unfolding persist
persist_if_master true = persist >>= λ _. ret tt
persist_if_master false = ret tt

module _ (X : Floats) (settings : Settings X) where
  unfoldable pub scale_if_master : Bool → SystemSnapshot → ScalerState X → Prog (ScalerState X)
  unfolding run_scaler
  scale_if_master true snapshot st =
      run_scaler X settings.scale_config snapshot settings.asg_name settings.dry_run st
  scale_if_master false snapshot st = ret st

-- What the round leaves in the store of the metrics.
unfoldable pub published :
    (X : Floats) (Y : Values)
    → Bool
    → SystemSnapshot
    → ScalerState X
    → MetricsState Y
    → MetricsState Y
unfolding update_from_ipvs update_scaler_bandwidth
published X Y true snapshot st store =
    update_scaler_bandwidth Y st.bw_raw_bps (X.to_u64 st.bw_smoothed)
      (update_from_ipvs Y snapshot store)
published X Y false snapshot st store = update_from_ipvs Y snapshot store

module _ (X : Floats) (Y : Values) (settings : Settings X) where
  -- What follows the snapshot. Without one, only the cache is new.
  unfoldable pub act_on :
      Bool → DaemonState X Y → Result SystemSnapshot × Cache → Prog (DaemonState X Y)
  unfolding run_cleanup persist_if_master scale_if_master published
  act_on master st (err e, cache) = ret (record st { owner_cache = cache })
  act_on master st (ok snapshot, cache) =
      run_cleanup snapshot settings.dry_run master settings.term_decrements_capacity
        st.cleanup_state settings.orphan_grace_secs
      >>= λ cleanup_state'. persist_if_master master >>= λ _.
          scale_if_master X settings master snapshot st.scaler_state >>= λ scaler_state'.
          ret (record st {
            owner_cache = cache;
            cleanup_state = cleanup_state';
            scaler_state = scaler_state';
            metrics_store = published X Y master snapshot scaler_state' st.metrics_store;
          })

  -- The round once the role is known.
  unfoldable pub cycle_as : DaemonState X Y → Bool → Prog (DaemonState X Y)
  unfolding sync_if_backup collect act_on
  cycle_as st master = sync_if_backup master >>= λ _.
      collect settings.slot_network settings.region settings.asg_name st.owner_cache
      >>= act_on master st

  -- One round, up to the wait for the next one; `parse` stands for the reading of the credentials.
  unfoldable pub cycle : (Bytes → Option AwsCredentials) → DaemonState X Y → Prog (DaemonState X Y)
  unfolding refresh_credentials resolve_role cycle_as
  cycle parse st = refresh_credentials parse st.creds >>= λ creds'.
      resolve_role settings.vip_inside >>= cycle_as (record st { creds = creds' })
