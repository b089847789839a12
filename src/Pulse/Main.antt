-- ===== src/Pulse/Main.antt =====
-- aeropulse/src/main.rs, main: the six files of a node. What is printed is left out.
use aerosuite.Base.{
  ℕ, ◌+◌, ◌*◌, Bytes, Bool, not, ◌&&◌, Option, none, some, List, [], ◌∷◌, if◌then◌else◌, is_some,
}
use aerosuite.Program.{Call, Prog, ret, send, Result, ok, err, bad_argument, ◌>>=◌, ◌>>=?◌}
use aerosuite.Pulse.{PulseArgs, InstanceData}
use aerosuite.Pulse.Resolve.{resolve_instance_data}
use aerosuite.Pulse.Backends.{render_backends_conf}
use aerosuite.Pulse.VrrpConf.{render_vrrp_conf}
use aerosuite.Pulse.Scripts.{
  render_notify_master, render_notify_backup, render_chk_backends, render_chk_forward_path,
}

-- 0o640 and 0o750
abbrev pub conf_mode : ℕ
conf_mode = 6 * 64 + 4 * 8

abbrev pub script_mode : ℕ
script_mode = 7 * 64 + 5 * 8

-- A file that is written: its path, its text and its mode.
abbrev pub Output : Type 0
Output = Bytes × (Bytes × ℕ)

abbrev pub create_dir_of : Option Bytes → Prog (Result (Unit {0}))
create_dir_of none = ret (ok tt)
create_dir_of (some dir) = send (Call.create_dir dir)

-- `parent` stands for Path::parent, `utc_text` for the formatting of the time.
module _ (parent : Bytes → Option Bytes) (utc_text : ℕ → Bytes) where
  unfoldable pub write_file : Output → Prog (Result (Unit {0}))
  write_file (path, (content, mode)) = create_dir_of (parent path) >>=? λ _.
      send (Call.write_text path content) >>=? λ _. send (Call.set_permissions path mode)

  unfoldable pub write_files : List Output → Prog (Result (Unit {0}))
  unfolding write_file
  write_files [] = ret (ok tt)
  write_files (output ∷ outputs) = write_file output >>=? λ _. write_files outputs

  -- Each text reads the clock for its own time stamp.
  unfoldable pub outputs_of : PulseArgs → InstanceData → Prog (List Output)
  unfolding render_vrrp_conf render_backends_conf render_notify_master render_notify_backup
      render_chk_backends render_chk_forward_path
  outputs_of args inst = send Call.now_ms >>= λ t1. send Call.now_ms >>= λ t2.
      send Call.now_ms >>= λ t3. send Call.now_ms >>= λ t4. send Call.now_ms >>= λ t5.
      send Call.now_ms >>= λ t6. ret (
        (args.out, (render_vrrp_conf (utc_text t1) args inst, conf_mode))
        ∷ (args.backends_out, (render_backends_conf (utc_text t2) args inst, conf_mode))
        ∷ (args.notify_master_out, (render_notify_master (utc_text t3) args inst, script_mode))
        ∷ (args.notify_backup_out, (render_notify_backup (utc_text t4) inst, script_mode))
        ∷ (args.chk_backends_out, (render_chk_backends (utc_text t5) args, script_mode))
        ∷ (args.chk_forward_out, (render_chk_forward_path (utc_text t6) args inst, script_mode))
        ∷ [])

  abbrev pub flags_valid : PulseArgs → Bool
  flags_valid args = not (args.enable_track_forward && not (is_some args.track_probe_host))

  unfoldable pub main : PulseArgs → Prog (Result (Unit {0}))
  unfolding resolve_instance_data outputs_of write_files
  main args =
      if flags_valid args
      then (resolve_instance_data >>=? λ inst. outputs_of args inst >>= write_files)
      else ret (err bad_argument)
