-- ===== src/Metrics/Cautious.antt =====
-- aeroscale/src/metrics/mod.rs, scrape_and_push: which backends are asked, and when CloudWatch is.
use aerosuite.Base.{
  In, bytes_eq, IsSortedBy, sort_by, sort_by-IsSortedBy, All-sort_by, filter, is_empty, ℕ, ◌+◌, ◌≡◌,
  refl, ◌∙◌, Bytes, Bool, true, false, ◌||◌, Option, none, some, List, [], ◌∷◌, ◌++◌, is_some,
  arith, Bool-cases, Option-cases, inl, inr, All, All-mono, All-append, All-In, text_lines,
}
use aerosuite.Program.{Call, Reply, ret, Result, ok, err, on_ok, ◌>>=◌}
use aerosuite.Program.Observed.{Observes, Observes-bind}
use aerosuite.Snapshot.{SystemSnapshot, BackendStatus, SlotLease, is_expired}
use aerosuite.Metrics.{Values, BackendMetrics, MetricsState, by_slot}
use aerosuite.Metrics.Slots.{by_slot-total, by_slot_trans}
use aerosuite.Metrics.Scrape.{parse_text, metrics_url, scrape_one}
use aerosuite.Metrics.CloudWatch.{push, scraped_well, monitoring_host, accepted}
use aerosuite.Metrics.Push.{
  PushSettings, live, metrics_of, scrape_in, scrape_if, scrape_all, push_if, scrape_and_push,
}

-- The last reading of the clock, whether a scrape was read, and the requests sent.
pub record Seen : Type 0 where
  pub now : ℕ
  pub scraped : Bool
  pub queries : ℕ

abbrev pub nothing_seen : Seen
nothing_seen = record { now = 0; scraped = false; queries = 0 }

module _ (X : Values) (settings : PushSettings X) where
  abbrev readable : Result Bytes → Bool
  readable (err e) = false
  readable (ok body) = is_some (settings.parse (text_lines body))

  unfoldable pub sees : Seen → (c : Call) → Reply c → Seen
  sees s Call.now_ms r = record s { now = r }
  sees s (Call.http_get url) r = record s { scraped = s.scraped || readable r }
  sees s (Call.aws_query host service region params) r = record s { queries = s.queries + 1 }
  sees s c r = s

  -- b has a slot and a lease that has not expired at the time.
  abbrev pub Scrapable : BackendStatus → ℕ → Type 0
  Scrapable b now =
      (l : SlotLease) × (slot : ℕ) × (b.lease ≡ some l)
      × (is_expired l now ≡ false)
      × (b.slot ≡ some slot)

  abbrev pub Asked : List BackendStatus → ℕ → Bytes → Type 0
  Asked bs now url =
      (b : BackendStatus) × In b bs
      × Scrapable b now
      × (url ≡ metrics_url X settings.parse b.ip settings.scrape_port)

  unfoldable pub Cautious : List BackendStatus → Seen → Call → Type 0
  Cautious bs s Call.now_ms = Unit {0}
  Cautious bs s (Call.http_get url) = Asked bs s.now url
  Cautious bs s (Call.aws_query host service region params) =
      (settings.is_master ≡ true)
      × (s.scraped ≡ true)
      × (s.queries ≡ 0)
      × (host ≡ monitoring_host X settings.region)
  Cautious bs s c = ⊥

  -- From s on, no request was sent, and each entry without an error comes from a scrape that was read.
  abbrev Gathered : Seen → Seen → List (BackendMetrics X) → Type 0
  Gathered s t found =
      (t.queries ≡ s.queries)
      × (s.scraped ≡ true → t.scraped ≡ true)
      × All (λ (m : BackendMetrics X). scraped_well X m ≡ true → t.scraped ≡ true) found

  abbrev Alive : BackendStatus → Seen → Seen → Bool → Type 0
  Alive b s t alive =
      (t.queries ≡ s.queries)
      × (t.scraped ≡ s.scraped)
      × (alive ≡ true → (l : SlotLease) × (b.lease ≡ some l) × (is_expired l t.now ≡ false))

  module _ (all : List BackendStatus) where
    live-Cautious :
        (b : BackendStatus) (o : Option SlotLease) (s : Seen)
        → b.lease ≡ o
        → Observes sees (Cautious all) (Alive b s) s (live o)
    unfolding live sees Cautious
    live-Cautious b none s e = (refl, refl, λ h. cc)
    live-Cautious b (some l) s e = (tt, λ now. (refl, refl, λ h. (l, e, ground (arith, h))))

    answered :
        (b : BackendStatus) (slot : ℕ) (s : Seen) (r : Result Bytes)
        → Observes sees
            (Cautious all)
            (Gathered s)
            (sees s (Call.http_get (metrics_url X settings.parse b.ip settings.scrape_port)) r)
            (on_ok (λ body. ret (parse_text X settings.parse body)) r >>= λ q.
              ret (metrics_of X settings slot b q ∷ []))
    unfolding sees parse_text
    answered b slot s (err e) = (refl, λ h. ground (arith, h), (λ h. cc, tt))
    answered b slot s (ok body) = elim (Option-cases (settings.parse (text_lines body))) [
      | inl e ↦ rw e (refl, λ h. ground (arith, h), (λ h. cc, tt))
      | inr (scrape, e) ↦ rw e (refl, λ h. ground (arith, h), (λ h. ground arith, tt))
    ]

    scrape_in-Cautious :
        (b : BackendStatus) (o : Option ℕ) (s : Seen)
        → b.slot ≡ o
        → In b all
        → (l : SlotLease) × (b.lease ≡ some l) × (is_expired l s.now ≡ false)
        → Observes sees (Cautious all) (Gathered s) s (scrape_in X settings o b)
    unfolding scrape_in scrape_one Cautious
    scrape_in-Cautious b none s e i h = (refl, λ k. k, tt)
    scrape_in-Cautious b (some slot) s e i (l, p, q) =
        ((b, i, (l, slot, p, q, e), refl), λ r. answered b slot s r)

    scrape_if-Cautious :
        (b : BackendStatus) (alive : Bool) (s : Seen)
        → In b all
        → (alive ≡ true → (l : SlotLease) × (b.lease ≡ some l) × (is_expired l s.now ≡ false))
        → Observes sees (Cautious all) (Gathered s) s (scrape_if X settings alive b)
    unfolding scrape_if
    scrape_if-Cautious b true s i h = scrape_in-Cautious b b.slot s refl i (h refl)
    scrape_if-Cautious b false s i h = (refl, λ k. k, tt)

    Gathered-append :
        (s t u v : Seen) (found rest : List (BackendMetrics X)) (b : BackendStatus) (alive : Bool)
        → Alive b s t alive
        → Gathered t u found
        → Gathered u v rest
        → Gathered s v (found ++ rest)
    Gathered-append s t u v found rest b alive (q, c, l) (q', m, f) (q'', m', f') =
        let reads : BackendMetrics X → Type 0 = λ m. scraped_well X m ≡ true → v.scraped ≡ true in
        (
          q'' ∙ (q' ∙ q),
          λ k. m' (m (c ∙ k)),
          All-append reads found rest
              (All-mono (λ m. scraped_well X m ≡ true → u.scraped ≡ true) reads found
                (λ x g k. m' (g k)) f)
              f',
        )

    scrape_all-Cautious :
        (bs : List BackendStatus) (s : Seen)
        → All (λ b. In b all) bs
        → Observes sees (Cautious all) (Gathered s) s (scrape_all X settings bs)
    unfolding scrape_all
    scrape_all-Cautious [] s h = (refl, λ k. k, tt)
    scrape_all-Cautious (b ∷ bs) s h =
        Observes-bind sees (Cautious all) (Alive b s) (Gathered s) s (live b.lease) _
          (live-Cautious b b.lease s refl)
          (λ t alive a.
            Observes-bind sees (Cautious all) (Gathered t) (Gathered s) t
              (scrape_if X settings alive b) _ (scrape_if-Cautious b alive t h.0 a.2)
              (λ u found g.
                Observes-bind sees (Cautious all) (Gathered u) (Gathered s) u
                  (scrape_all X settings bs) _ (scrape_all-Cautious bs u h.1)
                  (λ v rest g'. Gathered-append s t u v found rest b alive a g g')))

    -- A list whose filter is not empty has an element for which what holds of all that pass it holds.
    passed :
        (C : Type 0) (ms : List (BackendMetrics X))
        → All (λ m. scraped_well X m ≡ true → C) ms
        → is_empty (filter (scraped_well X) ms) ≡ false
        → C
    unfolding filter
    passed C [] h e = cc
    passed C (m ∷ ms) h e = elim (Bool-cases (scraped_well X m)) [
      | inl p ↦ h.0 p
      | inr p ↦ passed C ms h.1 (ground (arith, p, e))
    ]

    accepted-Cautious :
        (Q : Seen → Unit {0} → Type 0) (s : Seen) (r : Result Bytes)
        → Q s tt
        → Observes sees (Cautious all) Q s ((on_ok (λ xml. ret (accepted X xml)) r) >>= λ _. ret tt)
    accepted-Cautious Q s (err e) h = h
    accepted-Cautious Q s (ok xml) h = h

    push_if-Cautious :
        (Q : Type 0) (master : Bool) (found : List (BackendMetrics X)) (s : Seen)
        → settings.is_master ≡ master
        → s.queries ≡ 0
        → All (λ m. scraped_well X m ≡ true → s.scraped ≡ true) found
        → Q
        → Observes sees (Cautious all) (λ t u. Q) s (push_if X settings master found)
    unfolding push_if push Cautious
    push_if-Cautious Q false found s e q h k = k
    push_if-Cautious Q true found s e q h k =
        elim (Bool-cases (is_empty (filter (scraped_well X) found))) [
          | inl none_scraped ↦ rw none_scraped k
          | inr some_scraped ↦ rw some_scraped (
            tt,
            λ now. (
              (
                e,
                unfold sees in passed (s.scraped ≡ true) found h some_scraped,
                unfold sees in q,
                refl,
              ),
              λ r. accepted-Cautious (λ t u. Q) _ r k,
            ),
          )
        ]

  -- Whatever the replies are, scrape_and_push only reads the clock, asks for the metrics of backends of the
  -- snapshot that have a slot and a lease not expired at the last reading of the clock, and sends at most one
  -- request, to the CloudWatch host of the region: on a master, after a scrape that was read. The entries it
  -- leaves in the store stand in the order of their slots.
  pub scrape_and_push-Cautious :
      (snapshot : SystemSnapshot) (store : MetricsState X)
      → Observes sees
          (Cautious snapshot.backends)
          (λ t (after : MetricsState X). IsSortedBy (by_slot X) after.backends)
          nothing_seen
          (scrape_and_push X settings snapshot store)
  unfolding scrape_and_push
  scrape_and_push-Cautious snapshot store =
      let all = snapshot.backends in
      let Sorted : Seen → MetricsState X → Type 0 =
        λ t after. IsSortedBy (by_slot X) after.backends in
      Observes-bind sees (Cautious all) (Gathered nothing_seen) Sorted nothing_seen
        (scrape_all X settings all) _ (scrape_all-Cautious all all nothing_seen (All-In all))
        (λ t found g.
          let results = sort_by (by_slot X) found in
          let sorted : IsSortedBy (by_slot X) results =
            sort_by-IsSortedBy (by_slot X) (by_slot-total X) (by_slot_trans X) found in
          Observes-bind sees (Cautious all) (λ u v. IsSortedBy (by_slot X) results) Sorted t
            (push_if X settings settings.is_master results) _
            (push_if-Cautious all (IsSortedBy (by_slot X) results) settings.is_master results t refl
              g.0
              (All-sort_by (by_slot X) (λ m. scraped_well X m ≡ true → t.scraped ≡ true) found g.2)
              sorted)
            (λ u v h. h))
