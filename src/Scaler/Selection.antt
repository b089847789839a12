-- ===== src/Scaler/Selection.antt =====
-- Which backends a pass of the scaler counts.
use aerosuite.Base.{
  Bytes, Bool, In, ◌<◌, arith, ◌⊎◌, ℕ, Option, ◌≡◌, refl, true, false, ◌&&◌, none, some, List, [],
  ◌∷◌, is_some, Bool-cases, inl, inr, if◌then◌else◌,
}
use aerosuite.Program.{Call, Reply, Result, ok, err}
use aerosuite.Program.Observed.{Observes, Observes-bind, Observes-mono}
use aerosuite.Snapshot.{
  BackendStatus, BackendState, active, draining, disabled, unknown, SlotLease, IpvsBackend,
  is_active,
}
use aerosuite.Scaler.{has_live_lease, has_ipvs}
use aerosuite.Scaler.Pass.{is_counted, count_backends}

-- The readings of the two clocks, the last one first, and the last content of /proc/net/dev.
pub record Looks : Type 0 where
  pub walls : List ℕ
  pub instants : List ℕ
  pub iface : Option Bytes

abbrev pub no_looks : Looks
no_looks = record { walls = []; instants = []; iface = none }

abbrev pub content_of : Result Bytes → Option Bytes
content_of (err e) = none
content_of (ok content) = some content

unfoldable pub then_look : Looks → (c : Call) → Reply c → Looks
then_look t Call.now_ms now = record t { walls = now ∷ t.walls }
then_look t Call.instant_now now = record t { instants = now ∷ t.instants }
then_look t Call.read_proc_net_dev r = record t { iface = content_of r }
then_look t _ r = t

-- At a time: active, with a lease that ends later, and with IPVS data.
abbrev pub IsEligible : ℕ → BackendState → Option SlotLease → Option IpvsBackend → Type 0
IsEligible now active (some l) (some i) = now < l.expires_ms
IsEligible now active (some l) none = ⊥
IsEligible now active none ipvs = ⊥
IsEligible now draining lease ipvs = ⊥
IsEligible now disabled lease ipvs = ⊥
IsEligible now (unknown v) lease ipvs = ⊥

abbrev pub Counts : BackendStatus → ℕ → Type 0
Counts b now = IsEligible now b.weight_state b.lease b.ipvs

-- A backend does not count at a reading of the clock, or at no time.
abbrev pub IsLeftOut : List ℕ → BackendStatus → Type 0
IsLeftOut walls b = ((now : ℕ) → ¬ Counts b now) ⊎ ((now : ℕ) × In now walls × (¬ Counts b now))

-- The backends that count, in their order, each at a reading of the clock.
pub data Selects (walls : List ℕ) : List BackendStatus → List BackendStatus → Type 0 where
  nothing_left : Selects walls [] []
  left_out :
      (b : BackendStatus) {bs : List BackendStatus} {chosen : List BackendStatus}
      → IsLeftOut walls b
      → Selects walls bs chosen
      → Selects walls (b ∷ bs) chosen
  counted :
      (b : BackendStatus) (now : ℕ) {bs : List BackendStatus} {chosen : List BackendStatus}
      → In now walls
      → Counts b now
      → Selects walls bs chosen
      → Selects walls (b ∷ bs) (b ∷ chosen)

is_counted-IsEligible :
    (now : ℕ) (w : BackendState) (lease : Option SlotLease) (ipvs : Option IpvsBackend)
    → (is_active w && (has_live_lease now lease && has_ipvs ipvs)) ≡ true
    → IsEligible now w lease ipvs
is_counted-IsEligible now active (some l) (some i) h = ground (arith, h)
is_counted-IsEligible now active (some l) none h = ground (arith, h)
is_counted-IsEligible now active none ipvs h = ground (arith, h)
is_counted-IsEligible now draining lease ipvs h = ground (arith, h)
is_counted-IsEligible now disabled lease ipvs h = ground (arith, h)
is_counted-IsEligible now (unknown v) lease ipvs h = ground (arith, h)

IsEligible-is_counted :
    (now : ℕ) (w : BackendState) (lease : Option SlotLease) (ipvs : Option IpvsBackend)
    → IsEligible now w lease ipvs
    → (is_active w && (has_live_lease now lease && has_ipvs ipvs)) ≡ true
IsEligible-is_counted now active (some l) (some i) h = ground (arith, h)
IsEligible-is_counted now active (some l) none h = elim h [ ]
IsEligible-is_counted now active none ipvs h = elim h [ ]
IsEligible-is_counted now draining lease ipvs h = elim h [ ]
IsEligible-is_counted now disabled lease ipvs h = elim h [ ]
IsEligible-is_counted now (unknown v) lease ipvs h = elim h [ ]

IsEligible-is_active :
    (now : ℕ) (w : BackendState) (lease : Option SlotLease) (ipvs : Option IpvsBackend)
    → IsEligible now w lease ipvs
    → (is_active w && is_some lease) ≡ true
IsEligible-is_active now active (some l) ipvs h = refl
IsEligible-is_active now active none ipvs h = elim h [ ]
IsEligible-is_active now draining lease ipvs h = elim h [ ]
IsEligible-is_active now disabled lease ipvs h = elim h [ ]
IsEligible-is_active now (unknown v) lease ipvs h = elim h [ ]

both_values : (b : Bool) → b ≡ true → b ≡ false → ⊥
both_values b h k = ground (arith, h, k)

select :
    (walls : List ℕ) (b : BackendStatus) (now : ℕ) (bs chosen : List BackendStatus)
    → In now walls
    → Selects walls bs chosen
    → Selects walls (b ∷ bs) (if is_counted b now then b ∷ chosen else chosen)
select walls b now bs chosen i h = elim (Bool-cases (is_counted b now)) [
  | inl e ↦ rw e (counted b now i (is_counted-IsEligible now b.weight_state b.lease b.ipvs e) h)
  | inr e ↦ rw e (
      left_out b
        (inr (
          now,
          i,
          λ c.
              both_values (is_counted b now)
                (IsEligible-is_counted now b.weight_state b.lease b.ipvs c) e,
        ))
        h)
]

module _ (P : Looks → Call → Type 0) (reads : (t : Looks) → P t Call.now_ms) where
  -- What was read before stays read.
  abbrev Found : List ℕ → List BackendStatus → Looks → List BackendStatus → Type 0
  Found before bs t chosen = ((n : ℕ) → In n before → In n t.walls) × Selects t.walls bs chosen

  pub count_backends-Observes :
      (t : Looks) (bs : List BackendStatus)
      → Observes then_look P (Found t.walls bs) t (count_backends bs)
  unfolding count_backends then_look
  count_backends-Observes t [] = ((λ n i. i), nothing_left)
  count_backends-Observes t (b ∷ bs) =
      elim (Bool-cases (is_active b.weight_state && is_some b.lease)) [
        | inl e ↦ rw e (
          reads t,
          λ now.
              let u : Looks = then_look t Call.now_ms now in
              Observes-bind then_look P (Found u.walls bs) (Found t.walls (b ∷ bs)) u
                (count_backends bs) _ (count_backends-Observes u bs)
                (λ v more h.
                  ((λ n i. h.0 n (inr i)), select v.walls b now bs more (h.0 now (inl refl)) h.1)),
        )
        | inr e ↦ rw e (
            Observes-mono then_look P t (count_backends bs)
              (λ v chosen h. (
                h.0,
                left_out b
                    (inl (λ now c.
                      both_values (is_active b.weight_state && is_some b.lease)
                        (IsEligible-is_active now b.weight_state b.lease b.ipvs c) e))
                    h.1,
              ))
              (count_backends-Observes t bs))
      ]
