-- ===== src/Pulse/Scripts.antt =====
-- aeropulse/src/main.rs: the scripts that keepalived runs at its transitions and for its checks.
use aerosuite.Base.{
  to_decimal, text, concat, Bytes, codes, Bool, true, false, Option, none, some, [], ◌∷◌,
}
use aerosuite.Pulse.{PulseArgs, InstanceData}

unfoldable pub render_notify_master : Bytes → PulseArgs → InstanceData → Bytes
unfolding concat text
render_notify_master ts args inst = concat (
    codes "#!/bin/sh\n# notify-master.sh \\u2014 generated by aeropulse for "
    ∷ inst.instance_id
    ∷ codes "\n# Generated : "
    ∷ ts
    ∷ codes "\n# DO NOT EDIT MANUALLY \\u2014 re-run aeropulse to regenerate.\n#\n"
    ∷ codes "# Called by keepalived when this node's sync group (VG_LB) transitions to\n"
    ∷ codes "# MASTER.  Claims both virtual IPs at the AWS EC2 control plane using\n"
    ∷ codes "# AllowReassignment=true so they are stolen from the previous holder\n"
    ∷ codes "# atomically, without requiring a prior unassign step.\n#\n"
    ∷ codes "# The IPVS connection sync daemon is managed entirely by keepalived via the\n"
    ∷ codes "# lvs_sync_daemon directive in global_defs \\u2014 no ipvsadm calls needed here.\n"
    ∷ codes "\nset -eu\n\n"
    ∷ codes
        "log() { logger -p local3.info -t keepalived-notify \"notify-master[${TYPE:-?}/${NAME:-?}]: $*\"; }\n"
    ∷ codes "\nTYPE=\"${1:-}\"\nNAME=\"${2:-}\"\nSTATE=\"${3:-}\"\n\n"
    ∷ codes "log \"Transitioning to MASTER on "
    ∷ inst.instance_id
    ∷ codes " \\u2014 claiming VIPs ...\"\n\n"
    ∷ codes "# Outside VIP \\u2014 defaults to primary ENI (eth0), no --eni flag needed.\n"
    ∷ args.assign_bin
    ∷ codes " ip \\\n    --ip "
    ∷ inst.vip_outside
    ∷ codes " \\\n    --region "
    ∷ args.region
    ∷ codes " \\\n    --allow-reassignment \\\n    --assign \\\n    && log \"Outside VIP "
    ∷ inst.vip_outside
    ∷ codes " assigned.\" \\\n    || { log \"ERROR: failed to assign outside VIP "
    ∷ inst.vip_outside
    ∷ codes "\"; exit 1; }\n\n"
    ∷ codes "# Inside VIP \\u2014 must specify eth1's ENI ID explicitly.\n"
    ∷ args.assign_bin
    ∷ codes " ip \\\n    --ip "
    ∷ inst.vip_inside
    ∷ codes " \\\n    --eni "
    ∷ inst.inside.eni_id
    ∷ codes " \\\n    --region "
    ∷ args.region
    ∷ codes " \\\n    --allow-reassignment \\\n    --assign \\\n    && log \"Inside VIP "
    ∷ inst.vip_inside
    ∷ codes " assigned.\" \\\n    || { log \"ERROR: failed to assign inside VIP "
    ∷ inst.vip_inside
    ∷ codes "\"; exit 1; }\n\nlog \"Both VIPs claimed successfully.\"\n"
    ∷ [])

unfoldable pub render_notify_backup : Bytes → InstanceData → Bytes
unfolding concat text
render_notify_backup ts inst = concat (
    codes "#!/bin/sh\n# notify-backup.sh \\u2014 generated by aeropulse for "
    ∷ inst.instance_id
    ∷ codes "\n# Generated : "
    ∷ ts
    ∷ codes "\n# DO NOT EDIT MANUALLY \\u2014 re-run aeropulse to regenerate.\n#\n"
    ∷ codes "# Called by keepalived when this node's sync group (VG_LB) transitions to\n"
    ∷ codes "# BACKUP.  No AWS API action is needed: the new MASTER will claim the VIPs.\n"
    ∷ codes "# keepalived removes the virtual_ipaddress entries from the OS interfaces\n"
    ∷ codes "# automatically as part of the BACKUP transition.\n#\n"
    ∷ codes "# The IPVS connection sync daemon role is also switched automatically by\n"
    ∷ codes "# keepalived via lvs_sync_daemon \\u2014 no ipvsadm calls needed here.\n\n"
    ∷ codes "set -eu\n\nlogger -p local3.info -t keepalived-notify \\\n"
    ∷ codes
        "    \"notify-backup[${1:-?}/${2:-?}]: transitioned to BACKUP \\u2014 no action needed.\"\n"
    ∷ codes "\nexit 0\n"
    ∷ [])

unfoldable pub backends_note : Bool → Bytes
unfolding text
backends_note true = text "# Status: ACTIVE — referenced in vrrp.conf track_script block."
backends_note false =
    text "# Status: NOT YET ACTIVE — re-run keepalived-config with --enable-track-backends."

unfoldable pub render_chk_backends : Bytes → PulseArgs → Bytes
unfolding concat text backends_note
render_chk_backends ts args = concat (
    codes "#!/bin/sh\n"
    ∷ text "# chk-backends.sh — generated by keepalived-config\n"
    ∷ codes "# Generated : "
    ∷ ts
    ∷ codes "\n# "
    ∷ backends_note args.enable_track_backends
    ∷ codes "\n#\n"
    ∷ codes "# Checks that at least MIN_ACTIVE real servers are currently active in IPVS.\n"
    ∷ codes "# \"Active\" means weight > 0, i.e. keepalived's own health checks consider the\n"
    ∷ codes "# server reachable.\n#\n"
    ∷ text "# Returns 0 (healthy) or 1 (failed — triggers weight penalty in VRRP election).\n"
    ∷ codes "#\n# Requires: ipvsadm\n# Test:     "
    ∷ args.chk_backends_out
    ∷ codes " && echo OK || echo FAIL\n\nMIN_ACTIVE="
    ∷ to_decimal args.track_min_backends
    ∷ codes "\n\n# ipvsadm -l -n lists real servers as lines starting with \"  ->\".\n"
    ∷ codes "# Column 4 is the weight; 0 means the server has been marked down.\n"
    ∷ codes "ACTIVE=$(ipvsadm -l -n 2>/dev/null \\\n"
    ∷ codes "    | awk '/^[[:space:]]*->/ { if ($4 > 0) count++ } END { print count+0 }')\n"
    ∷ codes "\nif [ \"${ACTIVE}\" -ge \"${MIN_ACTIVE}\" ]; then\n    exit 0\nelse\n"
    ∷ codes "    logger -p local3.info -t keepalived-track \\\n"
    ∷ codes "        \"chk-backends: ${ACTIVE} active backend(s), minimum is ${MIN_ACTIVE}\"\n"
    ∷ codes "    exit 1\nfi\n"
    ∷ [])

unfoldable pub forward_note : Bool → Bytes
unfolding text
forward_note true = text "# Status: ACTIVE — referenced in vrrp.conf track_script block."
forward_note false =
    text
      "# Status: NOT YET ACTIVE — re-run keepalived-config with --enable-track-forward --track-probe-host <IP>."

unfoldable pub probe_host : Option Bytes → Bytes
unfolding text
probe_host none = text "<not configured — set --track-probe-host>"
probe_host (some host) = host

unfoldable pub render_chk_forward_path : Bytes → PulseArgs → InstanceData → Bytes
unfolding concat text forward_note probe_host
render_chk_forward_path ts args inst = concat (
    codes "#!/bin/sh\n"
    ∷ text "# chk-forward-path.sh — generated by keepalived-config\n"
    ∷ codes "# Generated : "
    ∷ ts
    ∷ codes "\n# "
    ∷ forward_note args.enable_track_forward
    ∷ codes "\n#\n# Verifies the actual forwarding path through eth1 to a real server by\n"
    ∷ codes "# attempting a TCP connection.  The probe is source-bound to eth1's own\n"
    ∷ codes "# private IP ("
    ∷ inst.inside.primary_ip
    ∷ codes ") so a broken or mis-routed eth1 cannot silently pass\n"
    ∷ codes "# via eth0, which would give a false positive.\n#\n"
    ∷ text "# Returns 0 (healthy) or 1 (failed — triggers weight penalty in VRRP election).\n"
    ∷ codes "#\n"
    ∷ text "# Requires: nc (netcat — available via busybox on Alpine)\n"
    ∷ codes "# Test:     "
    ∷ args.chk_forward_out
    ∷ codes " && echo OK || echo FAIL\n\nPROBE_HOST=\""
    ∷ probe_host args.track_probe_host
    ∷ codes "\"\nPROBE_PORT="
    ∷ to_decimal args.track_probe_port
    ∷ codes "\nPROBE_TIMEOUT="
    ∷ to_decimal args.track_probe_timeout
    ∷ codes "\nSRC_IP=\""
    ∷ inst.inside.primary_ip
    ∷ codes "\"\n\n"
    ∷ codes
        "nc -z -s \"${SRC_IP}\" -w \"${PROBE_TIMEOUT}\" \"${PROBE_HOST}\" \"${PROBE_PORT}\" \\\n"
    ∷ codes "    >/dev/null 2>&1\n\nif [ $? -ne 0 ]; then\n"
    ∷ codes "    logger -p local3.info -t keepalived-track \\\n"
    ∷ codes
        "        \"chk-forward-path: cannot reach ${PROBE_HOST}:${PROBE_PORT} via ${SRC_IP} (eth1)\"\n"
    ∷ codes "    exit 1\nfi\n\nexit 0\n"
    ∷ [])
