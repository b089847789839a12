-- ===== src/Daemon/Master.antt =====
-- Only a node that holds the inside address changes anything but its own copies of the weight files.
use aerosuite.Collect.{collect}
use aerosuite.Daemon.Reads.{after_sync-Passive}
use aerosuite.Xml.Find.{split_first-append}
use aerosuite.Xml.{split_first}
use mathlib.Core.Bool.{false≢true}
use aerosuite.Base.{
  ℕ, ◌⊎◌, bytes_eq, ◌≡◌, refl, Bytes, Bool, true, false, Option, some, List, ◌∷◌, ◌++◌,
  Option-cases, inl, inr, In, ap,
}
use aerosuite.Program.{Call, Reply, Prog, ret, call, Result, ok, err, Emits, ◌>>=◌}
use aerosuite.Program.Observed.{Follows, Follows-bind, Emits-Follows, Follows-weaken}
use aerosuite.Aws.{AwsCredentials}
use aerosuite.Vrrp.{held, is_master, ipv4_text}
use aerosuite.Scaler.{Floats}
use aerosuite.Metrics.{Values}
use aerosuite.Daemon.{
  Settings, DaemonState, refresh_credentials, act_on, sync_if_backup, resolve_role, cycle_as, cycle,
}
use aerosuite.Daemon.Copies.{Seen, nothing_yet, seen_after, ReadsOrCopies, sync_if_backup-Copying}
use aerosuite.Daemon.Passive.{is_passive, Passive, refresh_credentials-Passive}

abbrev pub Answers : Type 0
Answers = List (Result (Bool × Bytes))

-- One of them is a success whose output has the text of the address in it.
abbrev pub Shown : ℕ → Answers → Type 0
Shown vip seen =
    (before : Bytes) × (after : Bytes) × In (ok (true, before ++ (ipv4_text vip ++ after))) seen

abbrev pub OnlyMaster : ℕ → Seen → Call → Type 0
OnlyMaster vip t c = ReadsOrCopies t c ⊎ Shown vip t.answers

held-Shown :
    (vip : ℕ) (r : Result (Bool × Bytes)) (seen : Answers)
    → held vip r ≡ true
    → Shown vip (r ∷ seen)
held-Shown vip (err e) seen h = absurd (false≢true h)
held-Shown vip (ok (false, out)) seen h = absurd (false≢true h)
held-Shown vip (ok (true, out)) seen h = elim (Option-cases (split_first (ipv4_text vip) out)) [
  | inl e ↦ absurd (false≢true (rw e at h))
  | inr ((before, after), e) ↦ (
    before,
    after,
    inl (ap (λ s. ok (true, s)) (split_first-append (ipv4_text vip) out before after e)),
  )
]

module _ (vip : ℕ) where
  stays-Shown :
      (t : Seen) (c : Call) (r : Reply c)
      → Shown vip t.answers
      → Shown vip (seen_after t c r).answers
  unfolding seen_after
  stays-Shown t Call.ip_addr_show r (before, after, h) = (before, after, inr h)
  stays-Shown t _ r h = h

  abbrev Backed : {A : Type 0} → Seen → Prog A → Type 0
  Backed t m = Follows seen_after (OnlyMaster vip) t m

  -- A node that was shown the address may do anything.
  Shown-Backed : {A : Type 0} (m : Prog A) (t : Seen) → Shown vip t.answers → Backed t m
  Shown-Backed (ret a) t h = tt
  Shown-Backed (call c k) t h =
      (inr h, λ r. Shown-Backed (k r) (seen_after t c r) (stays-Shown t c r h))

  Passive-Backed : {A : Type 0} (m : Prog A) (t : Seen) → Emits Passive m → Backed t m
  Passive-Backed m t = Emits-Follows seen_after (OnlyMaster vip) Passive t m (λ u c p. inl (inl p))

  module _ (X : Floats) (Y : Values) (settings : Settings X) where
    role_known :
        (st : DaemonState X Y) (t : Seen) (master : Bool)
        → (master ≡ true → Shown vip t.answers)
        → Backed t (cycle_as X Y settings st master)
    unfolding cycle_as
    role_known st t true h = Shown-Backed (cycle_as X Y settings st true) t (h refl)
    role_known st t false h =
        Follows-bind seen_after (OnlyMaster vip) t (sync_if_backup false) _
          (Follows-weaken seen_after ReadsOrCopies (OnlyMaster vip) t (sync_if_backup false)
            (λ u c p. inl p) (sync_if_backup-Copying false t))
          (λ u a.
            Passive-Backed
              (collect settings.slot_network settings.region settings.asg_name st.owner_cache
                >>= act_on X Y settings false st)
              u (after_sync-Passive X Y settings st))

    role-Backed :
        (st : DaemonState X Y) (t : Seen) → Backed t (is_master vip >>= cycle_as X Y settings st)
    unfolding is_master Passive is_passive seen_after
    role-Backed st t = (
      inl (inl refl),
      λ r.
          unfold Passive is_passive seen_after in
          role_known st _ (held vip r) (held-Shown vip r t.answers),
    )

-- A daemon that is told the inside address sends in a round, whatever the replies are, nothing but commands
-- that read, requests that describe the group, and writes of a weight file with the trimmed value that Redis has
-- just given for its address, until an `ip addr show` of the round has succeeded with the text of the address
-- in its output: no slot is released, no instance terminated, no capacity set, no weight decided and nothing
-- written to Redis before.
pub cycle-OnlyMaster :
    (vip : ℕ) (X : Floats) (Y : Values) (settings : Settings X)
    (parse : Bytes → Option AwsCredentials) (st : DaemonState X Y)
    → settings.vip_inside ≡ some vip
    → Follows seen_after (OnlyMaster vip) nothing_yet (cycle X Y settings parse st)
unfolding cycle resolve_role
cycle-OnlyMaster vip X Y settings parse st h = rw h (
    Follows-bind seen_after (OnlyMaster vip) nothing_yet (refresh_credentials parse st.creds)
      (λ creds'. is_master vip >>= cycle_as X Y settings (record st { creds = creds' }))
      (Passive-Backed vip (refresh_credentials parse st.creds) nothing_yet
        (refresh_credentials-Passive parse st.creds))
      (λ t creds'. role-Backed vip X Y settings (record st { creds = creds' }) t))
