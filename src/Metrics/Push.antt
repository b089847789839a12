-- ===== src/Metrics/Push.antt =====
-- aeroscale/src/metrics/mod.rs, scrape_and_push: one scrape of the fleet. The cross-check with IPVS only
-- logs and is left out.
use aerosuite.Base.{
  sort_by, ℕ, Bytes, Bool, true, false, not, Option, none, some, List, [], ◌∷◌, ◌++◌,
}
use aerosuite.Program.{Call, Prog, ret, send, Result, ok, err, Error, ◌>>=◌}
use aerosuite.Snapshot.{SystemSnapshot, BackendStatus, SlotLease, is_expired}
use aerosuite.Metrics.{Values, BackendMetrics, MetricsState, by_slot}
use aerosuite.Metrics.Scrape.{ParsedScrape, Scraped, scrape_one}
use aerosuite.Metrics.CloudWatch.{push}

-- What the configuration and the role say, and the readers of foreign texts.
pub record PushSettings (X : Values) : Type 0 where
  pub scrape_port : ℕ
  pub region : Bytes
  pub namespace : Bytes
  pub is_master : Bool
  pub parse : List Bytes → Option (ParsedScrape X.F)
  pub utc_text : ℕ → Bytes
  pub error_text : Error → Bytes

-- A lease that has not expired; the clock is read only where there is a lease.
unfoldable pub live : Option SlotLease → Prog Bool
live none = ret false
live (some l) = send Call.now_ms >>= λ now. ret (not (is_expired l now))

module _ (X : Values) (settings : PushSettings X) where
  abbrev pub metrics_of : ℕ → BackendStatus → Result (Scraped X) → BackendMetrics X
  metrics_of slot b (ok (samples, docs)) = record {
    slot = slot;
    ip = b.ip;
    samples = samples;
    docs = docs;
    error = none;
  }
  metrics_of slot b (err e) = record {
    slot = slot;
    ip = b.ip;
    samples = [];
    docs = [];
    error = some (settings.error_text e);
  }

  unfoldable pub scrape_in : Option ℕ → BackendStatus → Prog (List (BackendMetrics X))
  unfolding scrape_one
  scrape_in none b = ret []
  scrape_in (some slot) b =
      scrape_one X settings.parse b.ip settings.scrape_port >>= λ r. ret (metrics_of slot b r ∷ [])

  unfoldable pub scrape_if : Bool → BackendStatus → Prog (List (BackendMetrics X))
  unfolding scrape_in
  scrape_if true b = scrape_in b.slot b
  scrape_if false b = ret []

  -- The loop over the backends.
  unfoldable pub scrape_all : List BackendStatus → Prog (List (BackendMetrics X))
  unfolding live scrape_if
  scrape_all [] = ret []
  scrape_all (b ∷ bs) = live b.lease >>= λ alive.
      scrape_if alive b >>= λ found. scrape_all bs >>= λ rest. ret (found ++ rest)

  -- A failed push is logged.
  unfoldable pub push_if : Bool → List (BackendMetrics X) → Prog (Unit {0})
  unfolding push
  push_if true results =
      push X settings.utc_text settings.region settings.namespace results >>= λ _. ret tt
  push_if false results = ret tt

  unfoldable pub scrape_and_push : SystemSnapshot → MetricsState X → Prog (MetricsState X)
  unfolding scrape_all push_if
  scrape_and_push snapshot store = scrape_all snapshot.backends >>= λ found.
      push_if settings.is_master (sort_by (by_slot X) found) >>= λ _.
      ret (record store { backends = sort_by (by_slot X) found })
