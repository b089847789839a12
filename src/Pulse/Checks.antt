-- ===== src/Pulse/Checks.antt =====
-- aeropulse/src/main.rs: the checks of a VRRP instance, enabled or as a hint.
use aerosuite.Base.{
  to_decimal, text, concat, Bytes, codes, Bool, true, false, ◌||◌, [], ◌∷◌, ◌++◌, if◌then◌else◌,
}
use aerosuite.Pulse.{PulseArgs, signed_decimal}

unfoldable pub chk_backends_definition : PulseArgs → Bytes
unfolding concat text signed_decimal
chk_backends_definition args = concat (
    codes "\nvrrp_script chk_backends {\n    script   \""
    ∷ args.chk_backends_out
    ∷ codes "\"\n    interval "
    ∷ to_decimal args.track_interval
    ∷ codes "\n    weight   "
    ∷ signed_decimal args.track_weight
    ∷ codes "\n    fall     "
    ∷ to_decimal args.track_fall
    ∷ codes "\n    rise     "
    ∷ to_decimal args.track_rise
    ∷ codes "\n    # Queries IPVS via ipvsadm.  Fails if fewer than "
    ∷ to_decimal args.track_min_backends
    ∷ codes " real server(s) are\n"
    ∷ codes "    # active.  Both nodes failing simultaneously does not cause a failover\n"
    ∷ codes "    # because both priorities drop equally and the master retains its lead.\n"
    ∷ codes "}\n"
    ∷ [])

unfoldable pub chk_forward_definition : PulseArgs → Bytes
unfolding concat text signed_decimal
chk_forward_definition args = concat (
    codes "\nvrrp_script chk_forward_path {\n    script   \""
    ∷ args.chk_forward_out
    ∷ codes "\"\n    interval "
    ∷ to_decimal args.track_interval
    ∷ codes "\n    weight   "
    ∷ signed_decimal args.track_weight
    ∷ codes "\n    fall     "
    ∷ to_decimal args.track_fall
    ∷ codes "\n    rise     "
    ∷ to_decimal args.track_rise
    ∷ codes "\n"
    ∷ codes "    # TCP-probes a real server through eth1.  Source-bound to eth1's own IP\n"
    ∷ codes "    # so a broken eth1 cannot silently pass the check via eth0.\n}\n"
    ∷ [])

unfoldable pub no_definitions : Bytes
unfolding concat text
no_definitions = concat (
    codes "\n"
    ∷ text "# ── track_script definitions (currently disabled) ────────────────────────────\n"
    ∷ codes "# Re-run keepalived-config with one or more of the flags below to activate:\n"
    ∷ codes "#\n"
    ∷ codes "#   --enable-track-backends          query IPVS; fail if < N real servers active\n"
    ∷ codes "#   --enable-track-forward           TCP-probe a real server through eth1\n"
    ∷ codes "#\n# Both script files have been written and can be tested manually:\n"
    ∷ codes "#   /etc/keepalived/chk-backends.sh\n"
    ∷ codes "#   /etc/keepalived/chk-forward-path.sh\n"
    ∷ [])

-- The definitions of the enabled checks, or the hint where none is enabled.
unfoldable pub render_vrrp_scripts_definitions : PulseArgs → Bytes
unfolding chk_backends_definition chk_forward_definition no_definitions
render_vrrp_scripts_definitions args =
    (if args.enable_track_backends then chk_backends_definition args else [])
    ++ ((if args.enable_track_forward then chk_forward_definition args else [])
        ++ (if args.enable_track_backends || args.enable_track_forward then [] else no_definitions))

unfoldable pub render_lvs_sync_daemon : PulseArgs → Bytes
unfolding concat text
render_lvs_sync_daemon args = concat (
    text "# ── IPVS connection sync daemon ──────────────────────────────────────────────\n"
    ∷ codes "# Bound to vxlan0: a point-to-point VXLAN tunnel over eth2.\n"
    ∷ codes "# keepalived manages master/backup role transitions automatically.\n\n"
    ∷ codes "global_defs {\n    lvs_sync_daemon "
    ∷ args.iface_vxlan
    ∷ codes " VI_INSIDE id "
    ∷ to_decimal args.lvs_sync_id
    ∷ codes "\n}\n"
    ∷ [])

unfoldable pub render_track_interface_block : PulseArgs → Bytes
unfolding concat text
render_track_interface_block args =
    if args.enable_track_interface
    then concat (
        codes "\n    track_interface {\n        "
        ∷ args.iface_outside
        ∷ codes "\n        "
        ∷ args.iface_inside
        ∷ codes "\n        "
        ∷ args.iface_sync
        ∷ codes "\n    }\n"
        ∷ [])
    else concat (
        codes "\n"
        ∷ text
            "    # track_interface disabled — enable with --enable-track-interface and regenerate.\n"
        ∷ codes "    # track_interface {\n    #     "
        ∷ args.iface_outside
        ∷ codes "\n    #     "
        ∷ args.iface_inside
        ∷ codes "\n    #     "
        ∷ args.iface_sync
        ∷ codes "\n    # }\n"
        ∷ [])

abbrev backends_line : Bool → Bytes
backends_line true = codes "        chk_backends\n"
backends_line false = codes "        # chk_backends    (enable with --enable-track-backends)\n"

abbrev forward_line : Bool → Bytes
forward_line true = codes "        chk_forward_path\n"
forward_line false =
    codes
      "        # chk_forward_path    (enable with --enable-track-forward --track-probe-host <IP>)\n"

unfoldable pub render_track_scripts_references : PulseArgs → Bytes
unfolding concat
render_track_scripts_references args = concat (
    codes "\n    track_script {\n"
    ∷ backends_line args.enable_track_backends
    ∷ forward_line args.enable_track_forward
    ∷ codes "    }\n"
    ∷ [])
