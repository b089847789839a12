-- ===== src/Tests/Nodes.antt =====
-- The files of a load balancer node, and a session of the FTP server.
use aerosuite.Base.{
  to_decimal, text_lines, negsuc, ◌≡◌, refl, Bytes, codes, true, false, Option, none, some, [], ◌∷◌,
}
use aerosuite.Program.{ok}
use aerosuite.Program.Observed.{Observes}
use aerosuite.Pulse.{PulseArgs}
use aerosuite.Pulse.Main.{main}
use aerosuite.Pulse.Writes.{progress, InOrder, Complete, not_begun, main-InOrder}
use aerosuite.Pulse.Backends.{track_files}
use aerosuite.Pulse.WeightFiles.{all_followed, addresses, all_followed-track_files}
use aerosuite.Ftp.{AeroUser}
use aerosuite.Ftp.Storage.{put}
use aerosuite.Ftp.Uploads.{uploads, InTurn, Uploaded, no_upload, put-InTurn}
use aerosuite.Ftp.Http.{post, Request, Surroundings, good, router}
use aerosuite.Ftp.Routes.{Sets, Outcome, router-Outcome}
use aerosuite.SlotNetwork.{ip_for_slot}
use aerosuite.Tests.Master.{small_net}

abbrev pulse_args : PulseArgs
pulse_args = record {
  auth_pass = codes "secret";
  out = codes "/etc/keepalived/vrrp.conf";
  notify_master_out = codes "/etc/keepalived/notify-master.sh";
  notify_backup_out = codes "/etc/keepalived/notify-backup.sh";
  chk_backends_out = codes "/etc/keepalived/chk-backends.sh";
  chk_forward_out = codes "/etc/keepalived/chk-forward-path.sh";
  backends_out = codes "/etc/keepalived/backends.conf";
  iface_outside = codes "eth0";
  iface_inside = codes "eth1";
  iface_sync = codes "eth2";
  iface_vxlan = codes "vxlan0";
  vrid_outside = 51;
  vrid_inside = 52;
  advert_int = 1;
  lvs_sync_id = 1;
  down_timer_adverts = 3;
  priority_master = 150;
  priority_backup = 100;
  enable_track_interface = false;
  enable_track_backends = true;
  track_min_backends = 1;
  enable_track_forward = false;
  track_probe_host = none;
  track_probe_port = 80;
  track_probe_timeout = 2;
  track_weight = negsuc 59;
  track_interval = 5;
  track_fall = 2;
  track_rise = 2;
  lvs_sched = codes "wlc";
  persistence_timeout = 30;
  assign_bin = codes "/usr/local/bin/aeroplug";
  region = codes "eu-west-2";
}

abbrev in_etc : Bytes → Option Bytes
in_etc path = some (codes "/etc/keepalived")

main-InOrder_example :
    Observes progress InOrder
      (Complete in_etc to_decimal pulse_args)
      not_begun
      (main in_etc to_decimal pulse_args)
main-InOrder_example = main-InOrder in_etc to_decimal pulse_args

all_followed-track_files_example :
    all_followed (text_lines (track_files small_net 0 3)) ≡ addresses small_net 0 3
all_followed-track_files_example = all_followed-track_files small_net 0 3

addresses_run : addresses small_net 0 3 ≡ 1010 ∷ 1011 ∷ 1012 ∷ []
unfolding addresses ip_for_slot
addresses_run = refl

abbrev known_user : AeroUser
known_user = record {
  username = codes "uploader";
  client_ip = codes "10.0.0.7";
  system_meta = (codes "serial", codes "42") ∷ [];
  quarantined = false;
}

put-InTurn_example :
    Observes uploads
      (InTurn known_user (ok (codes "ab") ∷ ok [] ∷ []) (codes "/f"))
      (Uploaded known_user (ok (codes "ab") ∷ ok [] ∷ []) (codes "/f"))
      no_upload
      (put known_user (ok (codes "ab") ∷ ok [] ∷ []) (codes "/f"))
put-InTurn_example = put-InTurn known_user (ok (codes "ab") ∷ ok [] ∷ []) (codes "/f")

-- Filters are texts, and every body is a directive.
abbrev texts_only : Surroundings
texts_only = record {
  Filter = Bytes;
  try_new = λ level. good level;
  parse_json = λ body. good body;
  gathered = none;
  subscriber_alive = true;
}

abbrev set_debug : Request
set_debug = record { method = post; path = codes "/config"; body = some (codes "debug") }

router-Outcome_example :
    Outcome texts_only set_debug (codes "info") (router texts_only set_debug (codes "info"))
    × ((new : Bytes)
        → Sets texts_only set_debug new
        → router texts_only set_debug (codes "info") ≡ (record { status = 200; content = [] }, new))
router-Outcome_example = router-Outcome texts_only set_debug (codes "info")
