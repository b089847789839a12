-- ===== src/Metrics/Slots.antt =====
-- aeroscale/src/metrics/mod.rs, update_from_ipvs: the entries of the store against the backends of the snapshot.
use aerosuite.Base.{
  Bytes, codes, leb, ◌⊎◌, In, All-mono, All-sort_by, sort_by-IsSortedBy, count_by-sort_by, count_by,
  IsSortedBy, ℕ, ◌+◌, ◌≡◌, refl, ◌∙◌, Bool, true, false, Option, none, some, List, [], ◌∷◌, nat_beq,
  if◌then◌else◌, arith, inl, inr, All,
}
use aerosuite.Snapshot.{SystemSnapshot, BackendStatus, IpvsBackend}
use aerosuite.Metrics.{
  RawSample, gauge, connection_counts, Values, BackendMetrics, MetricsState, with_slot,
  slot_metrics, by_slot, update_from_ipvs,
}

abbrev pub is_slot : ℕ → Option ℕ → Bool
is_slot n none = false
is_slot n (some slot) = nat_beq slot n

module _ (X : Values) where
  -- What IPVS lists of the backend, active and inactive, or 0 and 0.
  abbrev pub Counts : BackendStatus → ℕ → ℕ → Type 0
  Counts b n m =
      ((b.ipvs ≡ none) × (n ≡ 0) × (m ≡ 0))
      ⊎ ((i : IpvsBackend) × (b.ipvs ≡ some i)
          × (n ≡ i.active_connections)
          × (m ≡ i.inactive_connections))

  -- The two gauges.
  abbrev pub two_gauges : ℕ → ℕ → List (RawSample X)
  two_gauges n m =
      record {
        metric = codes "ipvs_active_connections";
        value = X.of_nat n;
        kind = gauge;
        labels = [];
      }
      ∷ record {
        metric = codes "ipvs_inactive_connections";
        value = X.of_nat m;
        kind = gauge;
        labels = [];
      }
      ∷ []

  abbrev pub two_docs : List (Bytes × Bytes)
  two_docs =
      (
        codes "ipvs_active_connections",
        codes "Number of active IPVS connections to this backend (from /proc/net/ip_vs).",
      )
      ∷ (
        codes "ipvs_inactive_connections",
        codes "Number of inactive IPVS connections to this backend (from /proc/net/ip_vs).",
      )
      ∷ []

  -- The entry shows the address and the counts of a backend of the list that has its slot.
  abbrev pub IsOf : List BackendStatus → BackendMetrics X → Type 0
  IsOf bs e =
      (b : BackendStatus) × (n : ℕ) × (m : ℕ) × In b bs
      × (b.slot ≡ some e.slot)
      × (e.ip ≡ b.ip)
      × (e.error ≡ none)
      × Counts b n m
      × (e.samples ≡ two_gauges n m)
      × (e.docs ≡ two_docs)

  gauges_shown :
      (b : BackendStatus) (o : Option IpvsBackend)
      → b.ipvs ≡ o
      → Counts b (connection_counts X o).0 (connection_counts X o).1
  gauges_shown b none e = inl (e, refl, refl)
  gauges_shown b (some i) e = inr (i, e, refl, refl)

  abbrev pub has_slot : ℕ → BackendMetrics X → Bool
  has_slot n m = nat_beq m.slot n

  IsOf-cons :
      (b : BackendStatus) (bs : List BackendStatus) (m : BackendMetrics X)
      → IsOf bs m
      → IsOf (b ∷ bs) m
  IsOf-cons b bs m (c, x, y, i, s, p, f, k, g, o) = (c, x, y, inr i, s, p, f, k, g, o)

  with_slot-IsOf :
      (bs : List BackendStatus) (b : BackendStatus) (o : Option ℕ) (rest : List (BackendMetrics X))
      → b.slot ≡ o
      → All (IsOf bs) rest
      → All (IsOf (b ∷ bs)) (with_slot X o b rest)
  with_slot-IsOf bs b none rest e h = All-mono (IsOf bs) (IsOf (b ∷ bs)) rest (IsOf-cons b bs) h
  with_slot-IsOf bs b (some slot) rest e h = (
    (b, _, _, inl refl, e, refl, refl, gauges_shown b b.ipvs refl, refl, refl),
    All-mono (IsOf bs) (IsOf (b ∷ bs)) rest (IsOf-cons b bs) h,
  )

  slot_metrics-IsOf : (bs : List BackendStatus) → All (IsOf bs) (slot_metrics X bs)
  unfolding slot_metrics
  slot_metrics-IsOf [] = tt
  slot_metrics-IsOf (b ∷ bs) =
      with_slot-IsOf bs b b.slot (slot_metrics X bs) refl (slot_metrics-IsOf bs)

  count-with_slot :
      (n : ℕ) (b : BackendStatus) (o : Option ℕ) (rest : List (BackendMetrics X))
      → count_by (has_slot n) (with_slot X o b rest)
        ≡ (if is_slot n o then 1 else 0) + count_by (has_slot n) rest
  count-with_slot n b none rest = omega arith
  count-with_slot n b (some slot) rest = refl

  count-slot_metrics :
      (n : ℕ) (bs : List BackendStatus)
      → count_by (has_slot n) (slot_metrics X bs)
        ≡ count_by (λ (b : BackendStatus). is_slot n b.slot) bs
  unfolding slot_metrics
  count-slot_metrics n [] = refl
  count-slot_metrics n (b ∷ bs) =
      omega (arith, count-with_slot n b b.slot (slot_metrics X bs), count-slot_metrics n bs)

  pub by_slot-total : (a b : BackendMetrics X) → by_slot X a b ≡ false → by_slot X b a ≡ true
  by_slot-total a b h = ground arith

  pub by_slot_trans :
      (a b c : BackendMetrics X)
      → by_slot X a b ≡ true
      → by_slot X b c ≡ true
      → by_slot X a c ≡ true
  by_slot_trans a b c h k = ground arith

  -- After update_from_ipvs the entries stand in the order of their slots, and each slot has as many entries as
  -- the snapshot has backends in it. Each entry is free of an error and shows the address of a backend of the
  -- snapshot in its slot and, as the gauges ipvs_active_connections and ipvs_inactive_connections with their
  -- help texts, the active and the inactive connections that IPVS lists of it, 0 and 0 where it lists none.
  -- The bandwidth readings stay.
  pub update_from_ipvs-slots :
      (snapshot : SystemSnapshot) (store : MetricsState X)
      → let after = update_from_ipvs X snapshot store in
        IsSortedBy (λ (a b : BackendMetrics X). leb a.slot b.slot) after.backends
        × ((n : ℕ)
            → count_by (has_slot n) after.backends
              ≡ count_by (λ (b : BackendStatus). is_slot n b.slot) snapshot.backends)
        × All (IsOf snapshot.backends) after.backends
        × (after.scaler_eth0_rx_bps_raw ≡ store.scaler_eth0_rx_bps_raw)
        × (after.scaler_eth0_rx_bps_smoothed ≡ store.scaler_eth0_rx_bps_smoothed)
  unfolding update_from_ipvs
  update_from_ipvs-slots snapshot store =
      let entries = slot_metrics X snapshot.backends in
      (
        sort_by-IsSortedBy (by_slot X) by_slot-total by_slot_trans entries,
        λ n.
            count_by-sort_by (by_slot X) (has_slot n) entries
            ∙ count-slot_metrics n snapshot.backends,
        All-sort_by (by_slot X) (IsOf snapshot.backends) entries
            (slot_metrics-IsOf snapshot.backends),
        refl,
        refl,
      )
