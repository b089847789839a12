-- ===== src/Pulse/VrrpConf.antt =====
-- aeropulse/src/main.rs, render_vrrp_conf: the VRRP instances of the node.
use aerosuite.Base.{ℕ, to_decimal, text, concat, Bytes, codes, [], ◌∷◌}
use aerosuite.Pulse.{PulseArgs, Role, master, backup, InstanceData, role_text, vrrp_state}
use aerosuite.Pulse.Checks.{
  render_vrrp_scripts_definitions, render_lvs_sync_daemon, render_track_interface_block,
  render_track_scripts_references,
}

abbrev pub priority : PulseArgs → Role → ℕ
priority args master = args.priority_master
priority args backup = args.priority_backup

abbrev pub nopreempt : Role → Bytes
nopreempt master = codes "    nopreempt\n"
nopreempt backup = []

unfoldable pub render_vrrp_conf : Bytes → PulseArgs → InstanceData → Bytes
unfolding concat text render_vrrp_scripts_definitions render_lvs_sync_daemon
    render_track_interface_block render_track_scripts_references
render_vrrp_conf ts args inst = concat (
    text "# ── VRRP — generated by keepalived-config ────────────────────────────────────\n"
    ∷ codes "# Instance  : "
    ∷ inst.instance_id
    ∷ codes "\n# Role      : "
    ∷ role_text inst.role
    ∷ codes "\n# Generated : "
    ∷ ts
    ∷ codes "\n#\n"
    ∷ text "# DO NOT EDIT MANUALLY — re-run keepalived-config to regenerate.\n"
    ∷ codes "#\n# Add to /etc/keepalived/keepalived.conf:\n#   include \""
    ∷ args.out
    ∷ codes "\"\n#\n# Interface roles:\n#   eth0  ("
    ∷ args.iface_outside
    ∷ codes ")  outside / public-facing data plane\n#   eth1  ("
    ∷ args.iface_inside
    ∷ codes ")   inside  / backend data plane + inside VIP\n#   eth2  ("
    ∷ args.iface_sync
    ∷ codes ")     HA sync / VRRP heartbeats + IPVS session sync\n"
    ∷ render_vrrp_scripts_definitions args
    ∷ codes "\n"
    ∷ render_lvs_sync_daemon args
    ∷ codes "\nvrrp_sync_group VG_LB {\n    group {\n        VI_OUTSIDE\n"
    ∷ codes "        VI_INSIDE\n    }\n"
    ∷ text "    # The sync group ensures both VIPs always move together — you will never\n"
    ∷ codes "    # end up with the outside VIP on one node and the inside VIP on the other.\n"
    ∷ codes "    # notify_master fires once per group transition, not once per instance.\n"
    ∷ codes "    notify_master \""
    ∷ args.notify_master_out
    ∷ codes "\"\n    notify_backup \""
    ∷ args.notify_backup_out
    ∷ codes "\"\n}\n\n"
    ∷ text "# ── Outside (public-facing) VIP: "
    ∷ inst.vip_outside
    ∷ text " ───────────────────────────────\n"
    ∷ codes "\nvrrp_instance VI_OUTSIDE {\n    state             "
    ∷ vrrp_state inst.role
    ∷ codes "\n"
    ∷ codes "    # Both VRRP instances bind their heartbeat socket to eth2 (the dedicated\n"
    ∷ codes "    # HA sync interface).  This completely isolates VRRP traffic from the data\n"
    ∷ codes "    # plane: a burst of FTP traffic on eth1 can no longer starve the VRRP\n"
    ∷ codes "    # heartbeat and cause a spurious failover.\n"
    ∷ codes "    # The outside VIP is still placed on eth0 via 'dev' in virtual_ipaddress.\n"
    ∷ codes "    interface         "
    ∷ args.iface_sync
    ∷ codes "\n    virtual_router_id "
    ∷ to_decimal args.vrid_outside
    ∷ codes "\n    priority          "
    ∷ to_decimal (priority args inst.role)
    ∷ codes "\n    advert_int        "
    ∷ to_decimal args.advert_int
    ∷ codes "\n    down_timer_adverts "
    ∷ to_decimal args.down_timer_adverts
    ∷ codes "\n"
    ∷ nopreempt inst.role
    ∷ codes "\n"
    ∷ text "    # Unicast over eth2 — AWS VPC drops VRRP multicast (224.0.0.18).\n"
    ∷ codes "    unicast_src_ip  "
    ∷ inst.sync.primary_ip
    ∷ codes "\n    unicast_peer {\n        "
    ∷ inst.peer_sync_ip
    ∷ codes "\n    }\n\n    authentication {\n        auth_type PASS\n        auth_pass "
    ∷ args.auth_pass
    ∷ codes "\n    }\n"
    ∷ render_track_interface_block args
    ∷ render_track_scripts_references args
    ∷ codes "\n"
    ∷ codes "    # /32 avoids injecting an unwanted subnet route into the local routing table.\n"
    ∷ codes "    virtual_ipaddress {\n        "
    ∷ inst.vip_outside
    ∷ codes "/32 dev "
    ∷ args.iface_outside
    ∷ codes "\n    }\n}\n\n"
    ∷ text "# ── Inside (server-facing) VIP: "
    ∷ inst.vip_inside
    ∷ text " ─────────────────────────────────\n"
    ∷ codes "\nvrrp_instance VI_INSIDE {\n    state             "
    ∷ vrrp_state inst.role
    ∷ codes "\n    interface         "
    ∷ args.iface_sync
    ∷ codes "\n    virtual_router_id "
    ∷ to_decimal args.vrid_inside
    ∷ codes "\n    priority          "
    ∷ to_decimal (priority args inst.role)
    ∷ codes "\n    advert_int        "
    ∷ to_decimal args.advert_int
    ∷ codes "\n    down_timer_adverts "
    ∷ to_decimal args.down_timer_adverts
    ∷ codes "\n"
    ∷ nopreempt inst.role
    ∷ codes "\n    unicast_src_ip  "
    ∷ inst.sync.primary_ip
    ∷ codes "\n    unicast_peer {\n        "
    ∷ inst.peer_sync_ip
    ∷ codes "\n    }\n\n    authentication {\n        auth_type PASS\n        auth_pass "
    ∷ args.auth_pass
    ∷ codes "\n    }\n"
    ∷ render_track_interface_block args
    ∷ render_track_scripts_references args
    ∷ codes "\n    virtual_ipaddress {\n        "
    ∷ inst.vip_inside
    ∷ codes "/32 dev "
    ∷ args.iface_inside
    ∷ codes "\n    }\n}\n"
    ∷ [])
