-- ===== src/Metrics/Exposition.antt =====
-- aeroscale/src/metrics/exposition.rs: the text of the store, each line by one `writeln`.
use aerosuite.Base.{
  to_decimal, lookup, bytes_leb, bytes_eq, filter, ℕ, Bytes, codes, Bool, Option, none, some, List,
  [], ◌∷◌, ◌++◌, map, ltb, length, if◌then◌else◌, is_some, ◌==◌,
}
use aerosuite.Metrics.{
  Values, SampleKind, counter, gauge, untyped, RawSample, BackendMetrics, MetricsState,
}

-- SampleKind::as_str
abbrev pub as_str : SampleKind → Bytes
as_str counter = codes "counter"
as_str gauge = codes "gauge"
as_str untyped = codes "untyped"

abbrev pub Meta : Type 0
Meta = List (Bytes × (SampleKind × Option Bytes))

-- BTreeMap::entry(name).or_insert(v): the first value of a name stays, the names stand in their order.
unfoldable pub or_insert : Bytes → SampleKind × Option Bytes → Meta → Meta
or_insert name v [] = (name, v) ∷ []
or_insert name v ((k, w) ∷ m) =
    let rest = or_insert name v m in
    if name == k
    then (k, w) ∷ m
    else if bytes_leb name k
    then (name, v) ∷ (k, w) ∷ m
    else (k, w) ∷ rest

abbrev pub quoted : Bytes → Bytes
quoted v = codes "=\"" ++ (v ++ codes "\"")

-- The labels after the slot.
unfoldable pub labels_text : List (Bytes × Bytes) → Bytes
labels_text [] = []
labels_text ((k, v) ∷ rest) = codes "," ++ (k ++ (quoted v ++ labels_text rest))

unfoldable pub label_str : ℕ → List (Bytes × Bytes) → Bytes
unfolding labels_text
label_str slot labels = codes "slot" ++ (quoted (to_decimal slot) ++ labels_text labels)

unfoldable pub help_line : Bytes → Bytes → Bytes
help_line name h = codes "# HELP " ++ (name ++ (codes " " ++ h))

unfoldable pub type_line : Bytes → Bytes → Bytes
type_line name kind = codes "# TYPE " ++ (name ++ (codes " " ++ kind))

abbrev pub help_lines : Bytes → Option Bytes → List Bytes
help_lines name none = []
help_lines name (some h) = help_line name h ∷ []

module _ (X : Values) where
  unfoldable pub meta_of_samples : List (Bytes × Bytes) → List (RawSample X) → Meta → Meta
  unfolding or_insert
  meta_of_samples docs [] m = m
  meta_of_samples docs (s ∷ ss) m =
      meta_of_samples docs ss (or_insert s.metric (s.kind, lookup s.metric docs) m)

  -- The failed backends count as well; they have no samples.
  unfoldable pub meta_of : List (BackendMetrics X) → Meta → Meta
  unfolding meta_of_samples
  meta_of [] m = m
  meta_of (b ∷ bs) m = meta_of bs (meta_of_samples b.docs b.samples m)

  unfoldable pub sample_line : ℕ → RawSample X → Bytes
  unfolding label_str
  sample_line slot s =
      s.metric ++ (codes "{" ++ (label_str slot s.labels ++ (codes "} " ++ X.show s.value)))

  -- The lines of one backend under a name.
  unfoldable pub lines_of : Bytes → ℕ → List (RawSample X) → List Bytes
  lines_of name slot [] = []
  lines_of name slot (s ∷ ss) =
      let rest = lines_of name slot ss in
      if s.metric == name then sample_line slot s ∷ rest else rest

  unfoldable pub lines_under : Bytes → List (BackendMetrics X) → List Bytes
  unfolding lines_of
  lines_under name [] = []
  lines_under name (b ∷ bs) =
      let rest = lines_under name bs in
      if is_some b.error then rest else lines_of name b.slot b.samples ++ rest

  unfoldable pub metric_blocks : List (BackendMetrics X) → Meta → List Bytes
  unfolding lines_under
  metric_blocks backends [] = []
  metric_blocks backends ((name, (kind, help)) ∷ meta) =
      help_lines name help
      ++ (type_line name (as_str kind) ∷ (lines_under name backends ++ metric_blocks backends meta))

  abbrev pub error_name : Bytes
  error_name = codes "aeroftp_scrape_error"

  unfoldable pub error_line : BackendMetrics X → Bytes
  error_line b =
      error_name
      ++ (codes "{slot"
          ++ (quoted (to_decimal b.slot)
              ++ (codes "} " ++ codes (if is_some b.error then "1" else "0"))))

  abbrev pub has_failed : BackendMetrics X → Bool
  has_failed b = is_some b.error

  -- One line for each backend, where one failed.
  unfoldable pub error_block : List (BackendMetrics X) → List Bytes
  unfolding error_line
  error_block backends =
      if ltb 0 (length (filter has_failed backends))
      then help_line error_name (codes "1 if the last scrape of this slot failed.")
        ∷ type_line error_name (as_str gauge)
        ∷ map error_line backends
      else []

  abbrev pub raw_name : Bytes
  raw_name = codes "aeroscale_eth0_rx_bps_raw"

  abbrev pub smoothed_name : Bytes
  smoothed_name = codes "aeroscale_eth0_rx_bps_smoothed"

  unfoldable pub number_line : Bytes → ℕ → Bytes
  number_line name n = name ++ (codes " " ++ to_decimal n)

  unfoldable pub bandwidth_block : MetricsState X → List Bytes
  unfolding number_line
  bandwidth_block state =
      help_line raw_name
        (codes "Instantaneous eth0 RX rate (delta-bytes/delta-time per scaler cycle) in bytes/s.")
      ∷ type_line raw_name (as_str gauge)
      ∷ number_line raw_name state.scaler_eth0_rx_bps_raw
      ∷ help_line smoothed_name (
          codes
            "EMA-smoothed eth0 RX bandwidth (alpha=0.6) in bytes/s; used for Trigger 2 (per-backend bandwidth scale-out).")
      ∷ type_line smoothed_name (as_str gauge)
      ∷ number_line smoothed_name state.scaler_eth0_rx_bps_smoothed
      ∷ []

  unfoldable pub format_lines : MetricsState X → List Bytes
  unfolding meta_of metric_blocks error_block bandwidth_block
  format_lines state =
      metric_blocks state.backends (meta_of state.backends [])
      ++ (error_block state.backends ++ bandwidth_block state)

  unfoldable pub write_lines : List Bytes → Bytes
  write_lines [] = []
  write_lines (line ∷ rest) = line ++ (10 ∷ write_lines rest)

  unfoldable pub format : MetricsState X → Bytes
  unfolding format_lines write_lines
  format state = write_lines (format_lines state)
