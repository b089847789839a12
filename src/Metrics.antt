-- ===== src/Metrics.antt =====
-- aeroscale/src/metrics/mod.rs: the samples of the backends, and the store from which they are served.
pub mod Slots
pub mod Exposition
pub mod Names
pub mod Lines
pub mod Scrape
pub mod CloudWatch
pub mod Points
pub mod Push
pub mod Cautious
use aerosuite.Base.{ℕ, sort_by, Bytes, codes, Bool, Option, none, some, List, [], ◌∷◌, leb}
use aerosuite.Snapshot.{SystemSnapshot, BackendStatus, IpvsBackend}

-- f64 as the metrics use it: the casts, the sum, and the two formats `{}` and `{:.4}`.
pub record Values : Type 1 where
  pub F : Type 0
  pub of_nat : ℕ → F
  pub plus : F → F → F
  pub show : F → Bytes
  pub show4 : F → Bytes

pub data SampleKind : Type 0 where
  counter gauge untyped : SampleKind

module _ (X : Values) where
  pub record RawSample : Type 0 where
    pub metric : Bytes
    pub value : X.F
    pub kind : SampleKind
    pub labels : List (Bytes × Bytes)

  pub record BackendMetrics : Type 0 where
    pub slot : ℕ
    pub ip : ℕ
    pub samples : List RawSample
    pub docs : List (Bytes × Bytes)
    pub error : Option Bytes

  pub record MetricsState : Type 0 where
    pub backends : List BackendMetrics
    pub scaler_eth0_rx_bps_raw : ℕ
    pub scaler_eth0_rx_bps_smoothed : ℕ

  -- new_store
  abbrev pub new_store : MetricsState
  new_store = record { backends = []; scaler_eth0_rx_bps_raw = 0; scaler_eth0_rx_bps_smoothed = 0 }

  -- A gauge without labels.
  abbrev pub plain_gauge : Bytes → ℕ → RawSample
  plain_gauge name n = record { metric = name; value = X.of_nat n; kind = gauge; labels = [] }

  abbrev active_name : Bytes
  active_name = codes "ipvs_active_connections"

  abbrev inactive_name : Bytes
  inactive_name = codes "ipvs_inactive_connections"

  abbrev pub ipvs_docs : List (Bytes × Bytes)
  ipvs_docs =
      (
        active_name,
        codes "Number of active IPVS connections to this backend (from /proc/net/ip_vs).",
      )
      ∷ (
        inactive_name,
        codes "Number of inactive IPVS connections to this backend (from /proc/net/ip_vs).",
      )
      ∷ []

  abbrev pub connection_counts : Option IpvsBackend → ℕ × ℕ
  connection_counts none = (0, 0)
  connection_counts (some i) = (i.active_connections, i.inactive_connections)

  -- The entry of a backend in a slot.
  abbrev pub ipvs_metrics : ℕ → BackendStatus → BackendMetrics
  ipvs_metrics slot b = record {
    slot = slot;
    ip = b.ip;
    samples =
        plain_gauge active_name (connection_counts b.ipvs).0
        ∷ plain_gauge inactive_name (connection_counts b.ipvs).1
        ∷ [];
    docs = ipvs_docs;
    error = none;
  }

  abbrev pub with_slot : Option ℕ → BackendStatus → List BackendMetrics → List BackendMetrics
  with_slot none b rest = rest
  with_slot (some slot) b rest = ipvs_metrics slot b ∷ rest

  -- The loop over the backends; one without a slot is left out.
  unfoldable pub slot_metrics : List BackendStatus → List BackendMetrics
  slot_metrics [] = []
  slot_metrics (b ∷ bs) = with_slot b.slot b (slot_metrics bs)

  abbrev pub by_slot : BackendMetrics → BackendMetrics → Bool
  by_slot a b = leb a.slot b.slot

  unfoldable pub update_from_ipvs : SystemSnapshot → MetricsState → MetricsState
  unfolding slot_metrics
  update_from_ipvs snapshot store = record store {
    backends = sort_by by_slot (slot_metrics snapshot.backends);
  }

  unfoldable pub update_scaler_bandwidth : ℕ → ℕ → MetricsState → MetricsState
  update_scaler_bandwidth raw_bps smoothed_bps store = record store {
    scaler_eth0_rx_bps_raw = raw_bps;
    scaler_eth0_rx_bps_smoothed = smoothed_bps;
  }
