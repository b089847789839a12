-- ===== src/Tests/Daemon.antt =====
-- Rounds of the daemon, the checks it rests on, and the signing of its requests.
use aerosuite.Collect.Ipvs.Hex.{hex_text, parse_hex_ip-text}
use aerosuite.Base.{◌≡◌, refl, codes, true, false, none, some, [], ◌∷◌, arith, to_decimal}
use aerosuite.Program.{ok}
use aerosuite.Program.Observed.{Follows}
use aerosuite.Daemon.Copies.{nothing_yet, seen_after}
use aerosuite.Xml.{split_first}
use aerosuite.Aws.{AwsCredentials}
use aerosuite.Vrrp.{held, ipv4_text}
use aerosuite.Collect.Ipvs.{parse_hex_ip}
use aerosuite.Daemon.Loop.{elapsed, notified, refresh_loop, DryOrWaits, refresh_loop-DryOrWaits}
use aerosuite.Daemon.{Settings, DaemonState, cycle}
use aerosuite.Daemon.Master.{OnlyMaster, cycle-OnlyMaster}
use aerosuite.Tests.Master.{small_net}
use aerosuite.Metrics.{new_store}
use aerosuite.Tests.Metrics.{whole}
use aerosuite.Tests.Scaling.{thousandths, small_config, rested_state}

abbrev node_settings : Settings thousandths
node_settings = record {
  region = codes "eu-west-2";
  asg_name = codes "asg";
  dry_run = false;
  slot_network = small_net;
  vip_inside = some 2886737252;
  term_decrements_capacity = true;
  orphan_grace_secs = 120;
  scale_config = small_config;
}

abbrev some_creds : AwsCredentials
some_creds = record {
  access_key_id = codes "A";
  secret_access_key = codes "S";
  session_token = none;
  expiration = some 1000;
}

abbrev fresh_daemon : DaemonState thousandths whole
fresh_daemon = record {
  creds = some_creds;
  owner_cache = [];
  cleanup_state = [];
  scaler_state = rested_state;
  metrics_store = new_store whole;
}

cycle-OnlyMaster_example :
    Follows seen_after
      (OnlyMaster 2886737252)
      nothing_yet
      (cycle thousandths whole node_settings (λ s. some some_creds) fresh_daemon)
cycle-OnlyMaster_example =
    cycle-OnlyMaster 2886737252 thousandths whole node_settings (λ s. some some_creds) fresh_daemon
      refl

-- The address of another host contains the inside address, and the node counts as its holder.
held_by_prefix : held 2886737162 (ok (true, codes "inet 172.16.29.100/24")) ≡ true
unfolding split_first ipv4_text to_decimal
held_by_prefix = refl

parse_hex_ip_sample : parse_hex_ip (codes "AC102014") ≡ some 2886737940
unfolding parse_hex_ip
parse_hex_ip_sample = refl

refresh_loop-DryOrWaits_example : Follows seen_after DryOrWaits nothing_yet (
    refresh_loop thousandths whole
      (record node_settings { dry_run = true })
      30
      (λ s. some some_creds)
      (elapsed ∷ notified ∷ [])
      fresh_daemon)
refresh_loop-DryOrWaits_example =
    refresh_loop-DryOrWaits thousandths whole (record node_settings { dry_run = true }) 30
      (λ s. some some_creds) refl (elapsed ∷ notified ∷ []) nothing_yet fresh_daemon

parse_hex_ip-text_example : parse_hex_ip (hex_text 2886737940) ≡ some 2886737940
parse_hex_ip-text_example = parse_hex_ip-text 2886737940 (omega arith)
