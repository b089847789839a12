-- ===== src/Tests/Metrics.antt =====
-- The metrics of a small fleet.
use aerosuite.Base.{
  ℕ, to_decimal, count_by, IsSortedBy, text_lines, All, ◌+◌, ◌*◌, ◌≡◌, refl, Bytes, codes, Bool,
  true, not, Option, none, some, List, [], ◌∷◌, ◌++◌, nat_beq, length,
}
use aerosuite.Program.Observed.{Observes}
use aerosuite.Snapshot.{SystemSnapshot, BackendStatus, SlotLease, active, draining}
use aerosuite.Metrics.{
  Values, counter, RawSample, BackendMetrics, MetricsState, new_store, by_slot, update_from_ipvs,
}
use aerosuite.Metrics.Slots.{is_slot, IsOf, has_slot, update_from_ipvs-slots}
use aerosuite.Metrics.Exposition.{format_lines, error_block, bandwidth_block, sample_line}
use aerosuite.Metrics.Lines.{samples_in, count-format_lines}
use aerosuite.Metrics.Points.{points_of, numbered, transfer_count, backend_points-numbered}
use aerosuite.Metrics.CloudWatch.{backend_points, header}
use aerosuite.Metrics.Scrape.{ParsedScrape, gauge_value}
use aerosuite.Metrics.Push.{PushSettings, scrape_and_push}
use aerosuite.Metrics.Cautious.{sees, Cautious, nothing_seen, scrape_and_push-Cautious}

-- Values that are whole numbers.
abbrev pub whole : Values
whole = record {
  F = ℕ;
  of_nat = λ n. n;
  plus = λ a b. a + b;
  show = to_decimal;
  show4 = λ n. to_decimal n ++ codes ".0000";
}

abbrev lease_two : SlotLease
lease_two = record { slot = 2; owner_instance_id = codes "i-2"; expires_ms = 500 }

abbrev busy : BackendStatus
busy = record {
  ip = 1012;
  slot = some 2;
  weight_state = active;
  ipvs = some (record { ip = 1012; active_connections = 4; inactive_connections = 1 });
  lease = some lease_two;
}

abbrev quiet : BackendStatus
quiet = record { ip = 1010; slot = some 0; weight_state = draining; ipvs = none; lease = none }

abbrev stray : BackendStatus
stray = record { ip = 7; slot = none; weight_state = active; ipvs = none; lease = none }

abbrev fleet : SystemSnapshot
fleet = record {
  backends = busy ∷ stray ∷ quiet ∷ [];
  leases = lease_two ∷ [];
  asg = [];
  asg_group = none;
  ipvs = [];
}

update_from_ipvs-slots_example :
    let after = update_from_ipvs whole fleet (new_store whole) in
    IsSortedBy (by_slot whole) after.backends
    × ((n : ℕ)
        → count_by (has_slot whole n) after.backends
          ≡ count_by (λ (b : BackendStatus). is_slot n b.slot) fleet.backends)
    × All (IsOf whole fleet.backends) after.backends
    × (after.scaler_eth0_rx_bps_raw ≡ 0)
    × (after.scaler_eth0_rx_bps_smoothed ≡ 0)
update_from_ipvs-slots_example = update_from_ipvs-slots whole fleet (new_store whole)

abbrev sample : Bytes → ℕ → List (Bytes × Bytes) → RawSample whole
sample metric value labels = record {
  metric = metric;
  value = value;
  kind = counter;
  labels = labels;
}

abbrev scraped_two : BackendMetrics whole
scraped_two = record {
  slot = 2;
  ip = 1012;
  samples =
      sample (codes "ftp_sessions_total") 5 []
      ∷ sample (codes "ftp_transferred_total") 7
          ((codes "command", codes "stor") ∷ (codes "status", codes "success") ∷ [])
      ∷ [];
  docs = (codes "ftp_sessions_total", codes "Sessions.") ∷ [];
  error = none;
}

abbrev failed_three : BackendMetrics whole
failed_three = record {
  slot = 3;
  ip = 1013;
  samples = [];
  docs = [];
  error = some (codes "refused");
}

abbrev two_scraped : MetricsState whole
two_scraped = record {
  backends = scraped_two ∷ failed_three ∷ [];
  scaler_eth0_rx_bps_raw = 10;
  scaler_eth0_rx_bps_smoothed = 9;
}

-- Lines that are no comments.
abbrev plain : Bytes → Bool
plain [] = true
plain (c ∷ line) = not (nat_beq c b'#')

count-format_lines_example :
    count_by plain (format_lines whole two_scraped)
    ≡ samples_in whole plain (scraped_two ∷ failed_three ∷ [])
      + (count_by plain (error_block whole (scraped_two ∷ failed_three ∷ []))
          + count_by plain (bandwidth_block whole two_scraped))
count-format_lines_example = count-format_lines whole plain (λ line. refl) two_scraped

sample_line_run :
    sample_line whole 2
      (sample (codes "ftp_command_total") 3 ((codes "command", codes "quit") ∷ []))
    ≡ codes "ftp_command_total{slot=\"2\",command=\"quit\"} 3"
unfolding sample_line to_decimal
sample_line_run = refl

backend_points-numbered_example :
    (backend_points whole (codes "T") (scraped_two ∷ []) (header whole (codes "ns"), 1) ≡ (
      header whole (codes "ns")
          ++ numbered whole (codes "T") 1 (points_of whole (scraped_two ∷ [])),
      1 + length (points_of whole (scraped_two ∷ [])),
    ))
    × (length (points_of whole (scraped_two ∷ []))
        ≡ 11 * 1 + transfer_count whole (scraped_two ∷ []))
backend_points-numbered_example =
    backend_points-numbered whole (codes "T") (scraped_two ∷ []) (header whole (codes "ns")) 1

abbrev one_gauge : List Bytes → Option (ParsedScrape ℕ)
one_gauge lines = some (record {
  docs = [];
  samples = record { metric = codes "up"; value = gauge_value 1; labels = [] } ∷ [];
})

abbrev push_settings : PushSettings whole
push_settings = record {
  scrape_port = 9090;
  region = codes "eu-west-2";
  namespace = codes "aeroftp";
  is_master = true;
  parse = one_gauge;
  utc_text = to_decimal;
  error_text = λ e. codes "error";
}

scrape_and_push-Cautious_example :
    Observes
      (sees whole push_settings)
      (Cautious whole push_settings (busy ∷ stray ∷ quiet ∷ []))
      (λ t (after : MetricsState whole). IsSortedBy (by_slot whole) after.backends)
      nothing_seen
      (scrape_and_push whole push_settings fleet (new_store whole))
scrape_and_push-Cautious_example =
    scrape_and_push-Cautious whole push_settings fleet (new_store whole)

-- A carriage return before a line feed is no part of the line.
text_lines_run : text_lines (codes "a\r\nb\n\nc\r") ≡ codes "a" ∷ codes "b" ∷ [] ∷ codes "c\r" ∷ []
unfolding text_lines
text_lines_run = refl
