-- ===== src/Metrics/Scrape.antt =====
-- aeroscale/src/metrics/scrape.rs: one scrape of a backend. The Prometheus parser is a parameter.
use aerosuite.Base.{
  to_decimal, ℕ, Bytes, codes, Option, none, some, List, [], ◌∷◌, ◌++◌, text_lines,
}
use aerosuite.Program.{Call, Prog, ret, send, Result, ok, err, bad_argument, ◌>>=?◌}
use aerosuite.Vrrp.{ipv4_text}
use aerosuite.Metrics.{Values, SampleKind, counter, gauge, untyped, RawSample}

-- prometheus_parse::Value; histograms and summaries without their content.
pub data Value (F : Type 0) : Type 0 where
  counter_value gauge_value untyped_value : F → Value F
  histogram summary : Value F

pub record ParsedSample (F : Type 0) : Type 0 where
  pub metric : Bytes
  pub value : Value F
  pub labels : List (Bytes × Bytes)

-- prometheus_parse::Scrape
pub record ParsedScrape (F : Type 0) : Type 0 where
  pub docs : List (Bytes × Bytes)
  pub samples : List (ParsedSample F)

module _ (X : Values) where
  abbrev scalar_value : Value X.F → Option (X.F × SampleKind)
  scalar_value (counter_value v) = some (v, counter)
  scalar_value (gauge_value v) = some (v, gauge)
  scalar_value (untyped_value v) = some (v, untyped)
  scalar_value histogram = none
  scalar_value summary = none

  abbrev with_scalar :
      ParsedSample X.F → Option (X.F × SampleKind) → List (RawSample X) → List (RawSample X)
  with_scalar s none rest = rest
  with_scalar s (some (v, k)) rest =
      record { metric = s.metric; value = v; kind = k; labels = s.labels } ∷ rest

  unfoldable pub raw_samples : List (ParsedSample X.F) → List (RawSample X)
  raw_samples [] = []
  raw_samples (s ∷ ss) = with_scalar s (scalar_value s.value) (raw_samples ss)

  abbrev pub Scraped : Type 0
  Scraped = List (RawSample X) × List (Bytes × Bytes)

  abbrev scrape_result : Option (ParsedScrape X.F) → Result Scraped
  scrape_result none = err bad_argument
  scrape_result (some scrape) = ok (raw_samples scrape.samples, scrape.docs)

  module _ (parse : List Bytes → Option (ParsedScrape X.F)) where
    unfoldable pub parse_text : Bytes → Result Scraped
    unfolding raw_samples text_lines
    parse_text body = scrape_result (parse (text_lines body))

    abbrev pub metrics_url : ℕ → ℕ → Bytes
    metrics_url ip port =
        codes "http://" ++ (ipv4_text ip ++ (codes ":" ++ (to_decimal port ++ codes "/metrics")))

    unfoldable pub scrape_one : ℕ → ℕ → Prog (Result Scraped)
    unfolding parse_text
    scrape_one ip port =
        send (Call.http_get (metrics_url ip port)) >>=? λ body. ret (parse_text body)
