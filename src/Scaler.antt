-- ===== src/Scaler.antt =====
-- aeroscale/src/scaler.rs: the decision engine. Floats enter as a parameter; sums of u32 wrap, as in the
-- release profile; an Instant is a count of nanoseconds.
pub mod ScaleUp
pub mod Drain
pub mod Pass
pub mod Order
pub mod Selection
pub mod Safety
use aerosuite.Base.{
  strip_prefix, ℕ, zero, suc, ◌+◌, ◌-◌, ◌/◌, ◌%◌, Bytes, codes, Bool, true, false, ◌&&◌, Option,
  none, some, List, [], ◌∷◌, ◌++◌, leb, ltb, nat_beq, length, filter, trim_start, is_space,
  parse_unsigned, u32_mod, u64_mod, if◌then◌else◌,
}
use aerosuite.Snapshot.{BackendStatus, BackendState, IpvsBackend, SlotLease, is_active, is_expired}

-- f64 as the scaler uses it: its operations, and nothing known of them.
pub record Floats : Type 1 where
  pub F : Type 0
  -- `as f64` of a u64, `as_secs_f64` of nanoseconds, `as u64`
  pub of_nat : ℕ → F
  pub of_nanos : ℕ → F
  pub to_u64 : F → ℕ
  pub plus : F → F → F
  pub minus : F → F → F
  pub times : F → F → F
  pub divide : F → F → F
  -- x < y, x <= y
  pub less : F → F → Bool
  pub at_most : F → F → Bool
  -- the literals 0.1, 0.6 (BW_EMA_ALPHA), 1.0 - 0.6 and 60.0
  pub tenth : F
  pub alpha : F
  pub rest : F
  pub sixty : F

pub record ScaleConfig (X : Floats) : Type 0 where
  pub hard_conn_threshold : ℕ
  pub slope_low_floor : ℕ
  pub slope_threshold_conn_per_min : X.F
  pub bw_threshold_bps_per_backend : ℕ
  pub drain_threshold : ℕ
  pub scale_up_hysteresis_cycles : ℕ
  pub drain_hysteresis_cycles : ℕ
  pub scale_up_cooldown_secs : ℕ
  pub drain_cooldown_secs : ℕ
  pub max_concurrent_draining : ℕ

pub record IfaceSnapshot : Type 0 where
  pub rx_bytes : ℕ
  pub at : ℕ

-- `slope_samples` has its front first: the oldest sample.
pub record ScalerState (X : Floats) : Type 0 where
  pub scale_up_cycles : ℕ
  pub drain_cycles : ℕ
  pub drain_candidate : Option ℕ
  pub last_scale_up : Option ℕ
  pub last_drain : Option ℕ
  pub slope_samples : List (ℕ × ℕ)
  pub bw_prev : Option IfaceSnapshot
  pub bw_smoothed : X.F
  pub bw_raw_bps : ℕ

unfoldable pub sessions_from_ipvs : ℕ → ℕ
sessions_from_ipvs connections = connections / 2

-- `b.ipvs.as_ref().unwrap().active_connections` of a backend that passed `is_counted`.
abbrev pub connections_of : Option IpvsBackend → ℕ
connections_of none = 0
connections_of (some i) = i.active_connections

unfoldable pub sessions : BackendStatus → ℕ
unfolding sessions_from_ipvs
sessions b = sessions_from_ipvs (connections_of b.ipvs)

abbrev pub has_live_lease : ℕ → Option SlotLease → Bool
has_live_lease now none = false
has_live_lease now (some l) = if is_expired l now then false else true

abbrev pub has_ipvs : Option IpvsBackend → Bool
has_ipvs none = false
has_ipvs (some i) = true

-- A u32 sum.
unfoldable pub total_sessions : List BackendStatus → ℕ
total_sessions [] = 0
total_sessions (b ∷ bs) = (sessions b + total_sessions bs) % u32_mod

-- The text up to the first white space.
unfoldable pub first_word : Bytes → Bytes
unfolding is_space
first_word [] = []
first_word (c ∷ s) = let rest = first_word s in if is_space c then [] else c ∷ rest

abbrev into_first : ℕ → List Bytes → List Bytes
into_first c [] = (c ∷ []) ∷ []
into_first c (l ∷ ls) = (c ∷ l) ∷ ls

-- str::lines, without the carriage returns, which /proc/net/dev has not
unfoldable pub lines : Bytes → List Bytes
lines [] = []
lines (c ∷ s) = let rest = lines s in if nat_beq c 10 then [] ∷ rest else into_first c rest

abbrev after_colon : Option Bytes → Option Bytes
after_colon none = none
after_colon (some s) = strip_prefix (codes ":") s

-- The counter in a line of the interface, after its colon.
unfoldable pub line_counter : Bytes → Bytes → Option Bytes
unfolding strip_prefix trim_start
line_counter iface line = after_colon (strip_prefix iface (trim_start line))

unfoldable pub find_counter : Bytes → List Bytes → Option ℕ
unfolding line_counter first_word
find_counter iface [] = none
find_counter iface (line ∷ more) =
    let rest = find_counter iface more in
    elim (line_counter iface line) [
      | none ↦ rest
      | some text ↦ parse_unsigned u64_mod (first_word (trim_start text))
    ]

unfoldable pub parse_iface_rx_bytes : Bytes → Bytes → Option ℕ
unfolding lines find_counter
parse_iface_rx_bytes content iface = find_counter iface (lines content)

module _ (X : Floats) where
  open X use {F, of_nat, of_nanos, plus, minus, times, divide, less, tenth, sixty}

  -- One lag: a clock that went backwards and a gap below 0.1 s are skipped.
  unfoldable pub lag_slope : ℕ → ℕ → ℕ × ℕ → Option F
  lag_slope now_sessions now (t_past, sessions_past) =
      if leb t_past now
      then (if less (of_nanos (now - t_past)) tenth
          then none
          else some (
              times
                (divide (minus (of_nat now_sessions) (of_nat sessions_past))
                  (of_nanos (now - t_past)))
                sixty))
      else none

  -- The sum and the number of the slopes over the samples, the most recent first.
  unfoldable pub sum_slopes : ℕ → ℕ → ℕ → List (ℕ × ℕ) → F × ℕ → F × ℕ
  unfolding lag_slope
  sum_slopes zero now_sessions now samples acc = acc
  sum_slopes (suc lags) now_sessions now [] acc = acc
  sum_slopes (suc lags) now_sessions now (s ∷ samples) (total, count) =
      sum_slopes lags now_sessions now samples (elim (lag_slope now_sessions now s) [
        | none ↦ (total, count)
        | some x ↦ (plus total x, count + 1)
      ])

  abbrev mean : F × ℕ → Option F
  mean (total, count) = if nat_beq count 0 then none else some (divide total (of_nat count))

  unfoldable pub backwards : List (ℕ × ℕ) → List (ℕ × ℕ) → List (ℕ × ℕ)
  backwards [] out = out
  backwards (s ∷ samples) out = backwards samples (s ∷ out)

  -- The mean over at most six lags.
  unfoldable pub compute_smoothed_slope : List (ℕ × ℕ) → ℕ → ℕ → Option F
  unfolding sum_slopes backwards
  compute_smoothed_slope samples now_sessions now =
      mean (sum_slopes 6 now_sessions now (backwards samples []) (of_nat 0, 0))
