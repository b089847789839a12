-- ===== src/Pulse/Writes.antt =====
-- aeropulse/src/main.rs, main: when which file is written.
use aerosuite.Base.{
  ℕ, ◌≡◌, refl, sym, ap, ◌∙◌, subst, Bytes, Bool, true, false, ◌||◌, Option, none, some, List, [],
  ◌∷◌, ◌++◌, map, arith,
}
use mathlib.Core.List.{append_assoc, append-nil}
use aerosuite.Program.{Call, Reply, Result, ok, err, ◌>>=◌, send, on_ok}
use aerosuite.Program.Observed.{Observes, Observes-then, Observes-if, Emits-Observes, Observes-mono}
use aerosuite.Pulse.{PulseArgs, InstanceData}
use aerosuite.Pulse.Resolve.{resolve_instance_data}
use aerosuite.Pulse.Reads.{ReadsImds, resolve_instance_data-ReadsImds}
use aerosuite.Pulse.Main.{
  Output, conf_mode, script_mode, create_dir_of, write_file, write_files, outputs_of, flags_valid,
  main,
}

-- Whether a command that writes has failed, the file written last, and the files finished with their
-- modes.
pub record Progress : Type 0 where
  pub failed : Bool
  pub last : Option Bytes
  pub finished : List (Bytes × ℕ)

abbrev pub not_begun : Progress
not_begun = record { failed = false; last = none; finished = [] }

abbrev fails : Result (Unit {0}) → Bool
fails (ok x) = false
fails (err e) = true

abbrev finishing : Progress → Bytes → ℕ → Result (Unit {0}) → Progress
finishing s path mode (ok x) = record s { finished = s.finished ++ ((path, mode) ∷ []) }
finishing s path mode (err e) = record s { failed = true }

unfoldable pub progress : Progress → (c : Call) → Reply c → Progress
progress s (Call.create_dir dir) r = record s { failed = s.failed || fails r }
progress s (Call.write_text path content) r = record s {
  failed = s.failed || fails r;
  last = some path;
}
progress s (Call.set_permissions path mode) r = finishing s path mode r
progress s c r = s

-- Before the first command that writes.
abbrev pub NotBegun : Progress → Type 0
NotBegun s = (s.failed ≡ false) × (s.last ≡ none) × (s.finished ≡ [])

unfoldable pub InOrder : Progress → Call → Type 0
InOrder s Call.imds_token = NotBegun s
InOrder s (Call.imds_get token path) = NotBegun s
InOrder s Call.now_ms = NotBegun s
InOrder s (Call.create_dir dir) = s.failed ≡ false
InOrder s (Call.write_text path content) = s.failed ≡ false
InOrder s (Call.set_permissions path mode) = (s.failed ≡ false) × (s.last ≡ some path)
InOrder s c = ⊥

-- The six files with their modes.
abbrev pub all_files : PulseArgs → List (Bytes × ℕ)
all_files args =
    (args.out, conf_mode)
    ∷ (args.backends_out, conf_mode)
    ∷ (args.notify_master_out, script_mode)
    ∷ (args.notify_backup_out, script_mode)
    ∷ (args.chk_backends_out, script_mode)
    ∷ (args.chk_forward_out, script_mode)
    ∷ []

abbrev file_of : Output → Bytes × ℕ
file_of (path, (content, mode)) = (path, mode)

-- The files `done` were finished after s, where the result is a success.
abbrev Finished : Progress → List (Bytes × ℕ) → Progress → Result (Unit {0}) → Type 0
Finished s done t (ok x) = (t.failed ≡ false) × (t.finished ≡ s.finished ++ done)
Finished s done t (err e) = Unit {0}

Kept : Progress → Progress → Result (Unit {0}) → Type 0
Kept s t (ok x) = (t.failed ≡ false) × (t.finished ≡ s.finished)
Kept s t (err e) = Unit {0}

created-Kept :
    (s : Progress) (dir : Bytes) (r : Result (Unit {0}))
    → s.failed ≡ false
    → Kept s (progress s (Call.create_dir dir) r) r
unfolding progress Kept
created-Kept s dir (ok x) h = (ground (arith, h), refl)
created-Kept s dir (err e) h = tt

permitted-Finished :
    (s t : Progress) (path : Bytes) (mode : ℕ) (r : Result (Unit {0}))
    → t.failed ≡ false
    → t.finished ≡ s.finished
    → Finished s ((path, mode) ∷ []) (progress t (Call.set_permissions path mode) r) r
unfolding progress
permitted-Finished s t path mode (ok x) h e = (h, ap (λ l. l ++ ((path, mode) ∷ [])) e)
permitted-Finished s t path mode (err x) h e = tt

-- After a text was written: the mode.
written-InOrder :
    (s t : Progress) (path content : Bytes) (mode : ℕ) (r : Result (Unit {0}))
    → t.failed ≡ false
    → t.finished ≡ s.finished
    → Observes progress InOrder
        (Finished s ((path, mode) ∷ []))
        (progress t (Call.write_text path content) r)
        (on_ok (λ x. send (Call.set_permissions path mode)) r)
unfolding progress InOrder
written-InOrder s t path content mode (err e) h k = tt
written-InOrder s t path content mode (ok x) h k =
    let f : t.failed || false ≡ false = ground (arith, h) in
    (
      (f, refl),
      λ r.
          unfold progress in
          permitted-Finished s (record t { failed = t.failed || false; last = some path }) path mode
            r f k,
    )

reads-NotBegun : (c : Call) → ReadsImds c → InOrder not_begun c
unfolding InOrder
reads-NotBegun Call.imds_token h = (refl, refl, refl)
reads-NotBegun (Call.imds_get token path) h = (refl, refl, refl)
reads-NotBegun c h = absurd h

reads-progress : (c : Call) (r : Reply c) → ReadsImds c → progress not_begun c r ≡ not_begun
unfolding progress
reads-progress Call.imds_token r h = refl
reads-progress (Call.imds_get token path) r h = refl
reads-progress c r h = absurd h

resolved-InOrder : Observes progress InOrder (λ t r. t ≡ not_begun) not_begun resolve_instance_data
resolved-InOrder =
    Emits-Observes progress InOrder ReadsImds not_begun resolve_instance_data reads-NotBegun
      reads-progress resolve_instance_data-ReadsImds

module _ (parent : Bytes → Option Bytes) (utc_text : ℕ → Bytes) where
  create_parent-InOrder :
      (o : Option Bytes) (s : Progress)
      → s.failed ≡ false
      → Observes progress InOrder (Kept s) s (create_dir_of o)
  unfolding InOrder Kept
  create_parent-InOrder none s h = (h, refl)
  create_parent-InOrder (some dir) s h = (h, λ r. unfold Kept in created-Kept s dir r h)

  write_file-InOrder :
      (path content : Bytes) (mode : ℕ) (s : Progress)
      → s.failed ≡ false
      → Observes progress InOrder
          (Finished s ((path, mode) ∷ []))
          s
          (write_file parent utc_text (path, (content, mode)))
  unfolding write_file InOrder Kept
  write_file-InOrder path content mode s h =
      Observes-then progress InOrder (Kept s) (Finished s ((path, mode) ∷ [])) s
        (create_dir_of (parent path)) _ (create_parent-InOrder (parent path) s h)
        (λ t x k. (k.0, λ r. unfold InOrder in written-InOrder s t path content mode r k.0 k.1))
        (λ t e k. tt)

  Finished-append :
      (s t u : Progress) (first : Bytes × ℕ) (others : List (Bytes × ℕ)) (r : Result (Unit {0}))
      → t.finished ≡ s.finished ++ (first ∷ [])
      → Finished t others u r
      → Finished s (first ∷ others) u r
  Finished-append s t u first others (ok x) e (f, g) =
      (f, g ∙ (ap (λ l. l ++ others) e ∙ append_assoc s.finished (first ∷ []) others))
  Finished-append s t u first others (err x) e h = tt

  write_files-InOrder :
      (outputs : List Output) (s : Progress)
      → s.failed ≡ false
      → Observes progress InOrder
          (Finished s (map file_of outputs))
          s
          (write_files parent utc_text outputs)
  unfolding write_files
  write_files-InOrder [] s h = (h, sym (append-nil s.finished))
  write_files-InOrder ((path, (content, mode)) ∷ outputs) s h =
      Observes-then progress InOrder (Finished s ((path, mode) ∷ []))
        (Finished s ((path, mode) ∷ map file_of outputs)) s
        (write_file parent utc_text (path, (content, mode))) _
        (write_file-InOrder path content mode s h)
        (λ t x k.
          Observes-mono progress InOrder t (write_files parent utc_text outputs)
            (λ u r g. Finished-append s t u (path, mode) (map file_of outputs) r k.1 g)
            (write_files-InOrder outputs t k.0))
        (λ t e k. tt)

  -- What main comes to: all six files where it succeeds.
  abbrev pub Complete : PulseArgs → Progress → Result (Unit {0}) → Type 0
  Complete args = Finished not_begun (all_files args)

  outputs-InOrder :
      (args : PulseArgs) (inst : InstanceData)
      → Observes progress InOrder
          (Complete args)
          not_begun
          (outputs_of parent utc_text args inst >>= write_files parent utc_text)
  unfolding outputs_of progress InOrder
  outputs-InOrder args inst =
      let start : NotBegun not_begun = (refl, refl, refl) in
      (
        start,
        λ t1. (
          start,
          λ t2. (
            start,
            λ t3. (start, λ t4. (start, λ t5. (start, λ t6. write_files-InOrder _ not_begun refl))),
          ),
        ),
      )

  -- Whatever the replies are, main reads the instance metadata and the clock only before it first writes,
  -- writes nothing after a command that writes has failed, and sets the mode of a file only right after its
  -- text was written. Where it succeeds the six files have been finished, in their order, the two configurations with
  -- mode 0o640 and the four scripts with mode 0o750.
  pub main-InOrder :
      (args : PulseArgs)
      → Observes progress InOrder (Complete args) not_begun (main parent utc_text args)
  unfolding main
  main-InOrder args =
      Observes-if progress InOrder (Complete args) not_begun (flags_valid parent utc_text args) _ _
        (λ e.
          Observes-then progress InOrder (λ t r. t ≡ not_begun) (Complete args) not_begun
            resolve_instance_data _ (resolved-InOrder)
            (λ t inst k.
              subst
                (λ u.
                  Observes progress InOrder (Complete args) u
                    (outputs_of parent utc_text args inst >>= write_files parent utc_text))
                (sym k) (outputs-InOrder args inst))
            (λ t x k. tt))
        (λ e. tt)
