-- ===== src/Pulse/Backends.antt =====
-- aeropulse/src/main.rs, render_backends_conf: the file with a weight file and a real server for each slot.
use aerosuite.Base.{
  ℕ, to_decimal, text, concat, u32_mod, zero, suc, ◌+◌, ◌-◌, ◌%◌, Bytes, codes, [], ◌∷◌, ◌++◌,
}
use aerosuite.SlotNetwork.{SlotNetwork, ip_for_slot}
use aerosuite.Vrrp.{ipv4_text}
use aerosuite.Pulse.{PulseArgs, InstanceData}

-- The name of the weight file of an address, in the directory of the weight files.
abbrev pub weight_dir : Bytes
weight_dir = codes "/etc/keepalived/weights/"

unfoldable pub track_file_block : ℕ → Bytes
unfolding concat
track_file_block ip = concat (
    codes "track_file backend_"
    ∷ ipv4_text ip
    ∷ codes " {\n    file \"/etc/keepalived/weights/backend-"
    ∷ ipv4_text ip
    ∷ codes ".weight\"\n}\n"
    ∷ [])

-- One block for each slot from `slot` on.
unfoldable pub track_files : SlotNetwork → ℕ → ℕ → Bytes
unfolding track_file_block ip_for_slot
track_files net slot zero = []
track_files net slot (suc n) =
    track_file_block (ip_for_slot net slot) ++ track_files net (slot + 1) n

unfoldable pub real_server_block : ℕ → Bytes
unfolding concat
real_server_block ip = concat (
    codes "    real_server "
    ∷ ipv4_text ip
    ∷ codes " 21 {\n        weight 1\n        FILE_CHECK {\n"
    ∷ codes "            track_file backend_"
    ∷ ipv4_text ip
    ∷ codes "\n            weight 1\n        }\n    }\n"
    ∷ [])

unfoldable pub real_servers : SlotNetwork → ℕ → ℕ → Bytes
unfolding real_server_block ip_for_slot
real_servers net slot zero = []
real_servers net slot (suc n) =
    real_server_block (ip_for_slot net slot) ++ real_servers net (slot + 1) n

-- slot_count - 1, which wraps at 0
abbrev pub last_slot : ℕ → ℕ
last_slot count = (count + u32_mod - 1) % u32_mod

-- `ts` is the time as a text.
unfoldable pub render_backends_conf : Bytes → PulseArgs → InstanceData → Bytes
unfolding concat text track_files real_servers ipv4_text ip_for_slot
render_backends_conf ts args inst = concat (
    text "# backends.conf — generated by aeropulse for "
    ∷ inst.instance_id
    ∷ codes "\n# Generated : "
    ∷ ts
    ∷ codes "\n"
    ∷ text "# DO NOT EDIT MANUALLY — re-run aeropulse to regenerate.\n"
    ∷ codes "#\n# Slot network:\n#   base      : "
    ∷ ipv4_text inst.slot_network.base
    ∷ codes "\n#   offset    : "
    ∷ to_decimal inst.slot_network.offset
    ∷ codes "\n#   count     : "
    ∷ to_decimal inst.slot_count
    ∷ codes "\n#   range     : "
    ∷ ipv4_text (ip_for_slot inst.slot_network 0)
    ∷ text " – "
    ∷ ipv4_text (ip_for_slot inst.slot_network (last_slot inst.slot_count))
    ∷ codes "\n#\n# Weight file values:\n"
    ∷ text "#    0           → active   (effective weight 1, receives new connections)\n"
    ∷ text "#   -1           → draining (effective weight 0, no new connections)\n"
    ∷ text "#   -2147483648  → removed  (FAULT state, fully absent from IPVS scheduler)\n"
    ∷ codes "#\n# These files are managed by aeroscale; do not edit manually.\n\n"
    ∷ codes "# ---------------------------------------------------------------------------\n"
    ∷ codes "# One track_file per backend slot.\n"
    ∷ codes "# ---------------------------------------------------------------------------\n"
    ∷ codes "\n"
    ∷ track_files inst.slot_network 0 inst.slot_count
    ∷ codes "\n"
    ∷ codes "# ---------------------------------------------------------------------------\n"
    ∷ text "# Virtual server  (outside VIP → backend pool on FTP port 21)\n"
    ∷ codes "#\n# FTP requires NAT mode so that ip_vs_ftp can rewrite PASV responses and\n"
    ∷ codes "# automatically track data-channel connections.  DR mode is not supported.\n"
    ∷ codes "#\n"
    ∷ codes "# persistence_timeout only needs to cover the window from control-connection\n"
    ∷ codes "# establishment to ip_vs_ftp processing the PASV response.  Once ip_vs_ftp\n"
    ∷ codes "# has created the data-channel IPVS entry the session no longer depends on\n"
    ∷ codes "# persistence.  Since each control connection carries exactly one file upload\n"
    ∷ codes "# there is no need to cover multiple transfers per control connection.\n"
    ∷ codes "# ---------------------------------------------------------------------------\n"
    ∷ codes "\nvirtual_server "
    ∷ inst.vip_outside
    ∷ codes " 21 {\n    lvs_sched    "
    ∷ args.lvs_sched
    ∷ codes "\n    lvs_method   NAT\n    protocol     TCP\n    persistence_timeout "
    ∷ to_decimal args.persistence_timeout
    ∷ codes "\n    quorum       1\n\n"
    ∷ real_servers inst.slot_network 0 inst.slot_count
    ∷ codes "}\n"
    ∷ [])
