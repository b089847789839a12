-- ===== src/Metrics/CloudWatch.antt =====
-- aeroscale/src/metrics/cloudwatch.rs: the request that carries the key metrics to CloudWatch.
use aerosuite.Base.{
  to_decimal, bytes_eq, String, find, filter, is_empty, ℕ, ◌+◌, Bytes, codes, Bool, false, not,
  ◌&&◌, ◌||◌, Option, none, some, List, [], ◌∷◌, ◌++◌, if◌then◌else◌, is_some, ◌==◌,
}
use aerosuite.Program.{Call, Prog, ret, send, Result, ok, err, unexpected_response, ◌>>=◌, ◌>>=?◌}
use aerosuite.Xml.{split_first}
use aerosuite.Aws.{Params, param}
use aerosuite.Metrics.{Values, RawSample, BackendMetrics}

unfoldable pub contains_text : Bytes → Bytes → Bool
unfolding split_first
contains_text needle s = is_some (split_first needle s)

abbrev pub member : ℕ → Bytes
member n = codes "MetricData.member." ++ to_decimal n

-- The dimensions, numbered from d.
unfoldable pub dimension_params : Bytes → ℕ → List (Bytes × Bytes) → Params
dimension_params p d [] = []
dimension_params p d ((dim_name, dim_value) ∷ rest) =
    let q : Bytes = p ++ (codes ".Dimensions.member." ++ to_decimal d) in
    (q ++ codes ".Name", dim_name)
    ∷ (q ++ codes ".Value", dim_value)
    ∷ dimension_params p (d + 1) rest

abbrev label_is : String → Bytes → Bytes × Bytes → Bool
label_is key value (k, v) = k == codes key && v == value

abbrev any : {A : Type 0} → (A → Bool) → List A → Bool
any p [] = false
any p (x ∷ xs) = p x || any p xs

abbrev label_value : Bytes → Option (Bytes × Bytes) → Bytes
label_value other none = other
label_value other (some (k, v)) = v

module _ (X : Values) where
  unfoldable pub add_point :
      Params → ℕ → Bytes → X.F → Bytes → List (Bytes × Bytes) → Bytes → Params
  unfolding dimension_params
  add_point params n name value unit dimensions timestamp =
      params
      ++ ((member n ++ codes ".MetricName", name)
          ∷ (member n ++ codes ".Value", X.show4 value)
          ∷ (member n ++ codes ".Unit", unit)
          ∷ (member n ++ codes ".Timestamp", timestamp)
          ∷ dimension_params (member n) 1 dimensions)

  abbrev sample_value : Option (RawSample X) → X.F
  sample_value none = X.of_nat 0
  sample_value (some s) = s.value

  -- The closure `scalar`.
  unfoldable pub scalar : BackendMetrics X → Bytes → X.F
  scalar b metric =
      sample_value (find (λ (s : RawSample X). s.metric == metric && is_empty s.labels) b.samples)

  -- The closure `labelled`, which the code calls with one wanted label, `command`.
  unfoldable pub labelled : BackendMetrics X → Bytes → Bytes → X.F
  labelled b metric command = sample_value (
      find (λ (s : RawSample X). s.metric == metric && any (label_is "command" command) s.labels)
        b.samples)

  -- The parameters so far, and the number of the next point.
  abbrev pub Growing : Type 0
  Growing = Params × ℕ

  -- `add_point(..); n += 1`
  abbrev pub next_point : Bytes → List (Bytes × Bytes) → String → X.F → String → Growing → Growing
  next_point timestamp dims name value unit (owned, n) =
      (add_point owned n (codes name) value (codes unit) dims timestamp, n + 1)

  abbrev pub is_stor : RawSample X → Bool
  is_stor s =
      s.metric == codes "ftp_transferred_total" && any (label_is "command" (codes "stor")) s.labels

  abbrev is_status : Bytes × Bytes → Bool
  is_status (k, v) = k == codes "status"

  abbrev pub slot_dim : BackendMetrics X → List (Bytes × Bytes)
  slot_dim b = (codes "Slot", to_decimal b.slot) ∷ []

  abbrev pub stor_dims : BackendMetrics X → RawSample X → List (Bytes × Bytes)
  stor_dims b s =
      (codes "Slot", to_decimal b.slot)
      ∷ (codes "Status", label_value (codes "unknown") (find is_status s.labels))
      ∷ []

  -- One point for each status.
  unfoldable pub stor_points : Bytes → BackendMetrics X → List (RawSample X) → Growing → Growing
  unfolding add_point
  stor_points ts b [] st = st
  stor_points ts b (s ∷ ss) st =
      stor_points ts b ss (next_point ts (stor_dims b s) "StorTransfers" s.value "Count" st)

  abbrev pub passive : BackendMetrics X → X.F
  passive b =
      X.plus (labelled b (codes "ftp_command_total") (codes "epsv"))
        (labelled b (codes "ftp_command_total") (codes "pasv"))

  -- The body of the loop over the backends: before, with and after the transfers.
  unfoldable pub session_points : Bytes → BackendMetrics X → Growing → Growing
  unfolding add_point scalar labelled
  session_points ts b st =
      let point = next_point ts (slot_dim b) in
      point "ReceivedBytes" (labelled b (codes "ftp_received_bytes") (codes "stor")) "Bytes" (
        point "BackendWriteFiles" (scalar b (codes "ftp_backend_write_files")) "Count" (
          point "BackendWriteBytes" (scalar b (codes "ftp_backend_write_bytes")) "Bytes" (
            point "CumulativeSessions" (scalar b (codes "ftp_sessions_count")) "Count"
              (point "ActiveSessions" (scalar b (codes "ftp_sessions_total")) "Count" st))))

  unfoldable pub process_points : Bytes → BackendMetrics X → Growing → Growing
  unfolding add_point scalar labelled
  process_points ts b st =
      let point = next_point ts (slot_dim b) in
      point "Threads" (scalar b (codes "process_threads")) "Count" (
        point "MaxFileDescriptors" (scalar b (codes "process_max_fds")) "Count" (
          point "OpenFileDescriptors" (scalar b (codes "process_open_fds")) "Count" (
            point "ResidentMemoryBytes" (scalar b (codes "process_resident_memory_bytes")) "Bytes" (
              point "StorCommands" (labelled b (codes "ftp_command_total") (codes "stor")) "Count"
                (point "PassiveModeCommands" (passive b) "Count" st)))))

  unfoldable pub backend_points : Bytes → List (BackendMetrics X) → Growing → Growing
  unfolding session_points stor_points process_points
  backend_points ts [] st = st
  backend_points ts (b ∷ bs) st =
      backend_points ts bs
        (process_points ts b (stor_points ts b (filter is_stor b.samples) (session_points ts b st)))

  abbrev pub scraped_well : BackendMetrics X → Bool
  scraped_well b = not (is_some b.error)

  abbrev pub header : Bytes → Params
  header namespace =
      param "Action" (codes "PutMetricData")
      ∷ param "Version" (codes "2010-08-01")
      ∷ param "Namespace" namespace
      ∷ []

  abbrev pub monitoring_host : Bytes → Bytes
  monitoring_host region = codes "monitoring." ++ (region ++ codes ".amazonaws.com")

  abbrev pub accepted : Bytes → Result (Unit {0})
  accepted xml =
      if contains_text (codes "PutMetricDataResponse") xml
        || contains_text (codes "<RequestId>") xml
      then ok tt
      else err unexpected_response

  -- `utc_text` stands for the formatting of the time.
  unfoldable pub push :
      (ℕ → Bytes) → Bytes → Bytes → List (BackendMetrics X) → Prog (Result (Unit {0}))
  unfolding backend_points contains_text
  push utc_text region namespace backends =
      let active_backends = filter scraped_well backends in
      if is_empty active_backends
      then ret (ok tt)
      else (send Call.now_ms >>= λ now.
          send (
            Call.aws_query (monitoring_host region) (codes "monitoring") region
              (backend_points (utc_text now) active_backends (header namespace, 1)).0)
          >>=? λ xml. ret (accepted xml))
