-- ===== src/Metrics/Points.antt =====
-- aeroscale/src/metrics/cloudwatch.rs: the numbers of the points of a request.
use aerosuite.Base.{
  String, filter, length-append, ℕ, suc, ◌+◌, ◌*◌, ◌≡◌, refl, sym, ap, ◌∙◌, Bytes, codes, List, [],
  ◌∷◌, ◌++◌, map, length, arith,
}
use mathlib.Core.List.{append_assoc, append-nil}
use mathlib.Core.Path.{ap₂}
use aerosuite.Aws.{Params}
use aerosuite.Metrics.{Values, RawSample, BackendMetrics}
use aerosuite.Metrics.CloudWatch.{
  member, dimension_params, add_point, scalar, labelled, Growing, next_point, is_stor, slot_dim,
  stor_dims, stor_points, passive, session_points, process_points, backend_points,
}

length-map : {A B : Type 0} (f : A → B) (xs : List A) → length (map f xs) ≡ length xs
length-map f [] = refl
length-map f (x ∷ xs) = ap suc (length-map f xs)

module _ (X : Values) where
  -- A data point, before it has its number.
  pub record Point : Type 0 where
    pub name : String
    pub value : X.F
    pub unit : String
    pub dims : List (Bytes × Bytes)

  abbrev of_slot : BackendMetrics X → String → X.F → String → Point
  of_slot b name value unit = record {
    name = name;
    value = value;
    unit = unit;
    dims = slot_dim X b;
  }

  abbrev stor_point : BackendMetrics X → RawSample X → Point
  stor_point b s = record {
    name = "StorTransfers";
    value = s.value;
    unit = "Count";
    dims = stor_dims X b s;
  }

  abbrev session_data : BackendMetrics X → List Point
  session_data b =
      of_slot b "ActiveSessions" (scalar X b (codes "ftp_sessions_total")) "Count"
      ∷ of_slot b "CumulativeSessions" (scalar X b (codes "ftp_sessions_count")) "Count"
      ∷ of_slot b "BackendWriteBytes" (scalar X b (codes "ftp_backend_write_bytes")) "Bytes"
      ∷ of_slot b "BackendWriteFiles" (scalar X b (codes "ftp_backend_write_files")) "Count"
      ∷ of_slot b "ReceivedBytes" (labelled X b (codes "ftp_received_bytes") (codes "stor")) "Bytes"
      ∷ []

  abbrev transfer_data : BackendMetrics X → List Point
  transfer_data b = map (stor_point b) (filter (is_stor X) b.samples)

  abbrev process_data : BackendMetrics X → List Point
  process_data b =
      of_slot b "PassiveModeCommands" (passive X b) "Count"
      ∷ of_slot b "StorCommands" (labelled X b (codes "ftp_command_total") (codes "stor")) "Count"
      ∷ of_slot b "ResidentMemoryBytes" (scalar X b (codes "process_resident_memory_bytes")) "Bytes"
      ∷ of_slot b "OpenFileDescriptors" (scalar X b (codes "process_open_fds")) "Count"
      ∷ of_slot b "MaxFileDescriptors" (scalar X b (codes "process_max_fds")) "Count"
      ∷ of_slot b "Threads" (scalar X b (codes "process_threads")) "Count"
      ∷ []

  unfoldable pub points_of : List (BackendMetrics X) → List Point
  points_of [] = []
  points_of (b ∷ bs) = (session_data b ++ (transfer_data b ++ process_data b)) ++ points_of bs

  -- The samples of finished transfers, over all backends.
  unfoldable pub transfer_count : List (BackendMetrics X) → ℕ
  transfer_count [] = 0
  transfer_count (b ∷ bs) = length (filter (is_stor X) b.samples) + transfer_count bs

  module _ (ts : Bytes) where
    abbrev point_params : ℕ → Point → Params
    point_params n p =
        (member n ++ codes ".MetricName", codes p.name)
        ∷ (member n ++ codes ".Value", X.show4 p.value)
        ∷ (member n ++ codes ".Unit", codes p.unit)
        ∷ (member n ++ codes ".Timestamp", ts)
        ∷ dimension_params (member n) 1 p.dims

    -- The blocks of the points, which get the numbers n, n + 1 and so on.
    unfoldable pub numbered : ℕ → List Point → Params
    numbered n [] = []
    numbered n (p ∷ ps) = point_params n p ++ numbered (n + 1) ps

    adds : List Point → Growing X → Growing X
    adds [] st = st
    adds (p ∷ ps) st = adds ps (next_point X ts p.dims p.name p.value p.unit st)

    adds-append : (ps qs : List Point) (st : Growing X) → adds (ps ++ qs) st ≡ adds qs (adds ps st)
    unfolding adds
    adds-append [] qs st = refl
    adds-append (p ∷ ps) qs st = adds-append ps qs (next_point X ts p.dims p.name p.value p.unit st)

    adds-numbered :
        (ps : List Point) (owned : Params) (n : ℕ)
        → adds ps (owned, n) ≡ (owned ++ numbered n ps, n + length ps)
    unfolding adds numbered add_point
    adds-numbered [] owned n =
        ap₂ (λ (o : Params) (k : ℕ). (o, k)) (sym (append-nil owned)) (omega arith)
    adds-numbered (p ∷ ps) owned n =
        adds-numbered ps (owned ++ point_params n p) (n + 1)
        ∙ ap₂ (λ (o : Params) (k : ℕ). (o, k))
            (append_assoc owned (point_params n p) (numbered (n + 1) ps)) (omega arith)

    stor_points-adds :
        (b : BackendMetrics X) (ss : List (RawSample X)) (st : Growing X)
        → stor_points X ts b ss st ≡ adds (map (stor_point b) ss) st
    unfolding stor_points adds
    stor_points-adds b [] st = refl
    stor_points-adds b (s ∷ ss) st =
        stor_points-adds b ss (next_point X ts (stor_dims X b s) "StorTransfers" s.value "Count" st)

    one_backend :
        (b : BackendMetrics X) (st : Growing X)
        → process_points X ts b
            (stor_points X ts b (filter (is_stor X) b.samples) (session_points X ts b st))
          ≡ adds (session_data b ++ (transfer_data b ++ process_data b)) st
    unfolding session_points process_points adds
    one_backend b st =
        let st1 = session_points X ts b st in
        ap (process_points X ts b) (stor_points-adds b (filter (is_stor X) b.samples) st1)
        ∙ (sym (adds-append (transfer_data b) (process_data b) st1)
            ∙ sym (adds-append (session_data b) (transfer_data b ++ process_data b) st))

    backend_points-adds :
        (bs : List (BackendMetrics X)) (st : Growing X)
        → backend_points X ts bs st ≡ adds (points_of bs) st
    unfolding backend_points points_of
    backend_points-adds [] st = unfold adds in refl
    backend_points-adds (b ∷ bs) st =
        ap (backend_points X ts bs) (one_backend b st)
        ∙ (backend_points-adds bs (adds (session_data b ++ (transfer_data b ++ process_data b)) st)
            ∙ sym (
                adds-append (session_data b ++ (transfer_data b ++ process_data b)) (points_of bs)
                  st))

  length-points_of :
      (bs : List (BackendMetrics X)) → length (points_of bs) ≡ 11 * length bs + transfer_count bs
  unfolding points_of transfer_count
  length-points_of [] = refl
  length-points_of (b ∷ bs) = omega (
    arith,
    length-append (session_data b ++ (transfer_data b ++ process_data b)) (points_of bs),
    length-append (session_data b) (transfer_data b ++ process_data b),
    length-append (transfer_data b) (process_data b),
    length-map (stor_point b) (filter (is_stor X) b.samples),
    length-points_of bs,
  )

  -- The loop over the backends appends to the parameters the blocks of their points under the numbers from n
  -- on, without a gap and in order: eleven points for each backend, and one for each of its samples of
  -- finished stor transfers.
  pub backend_points-numbered :
      (ts : Bytes) (bs : List (BackendMetrics X)) (owned : Params) (n : ℕ)
      → (backend_points X ts bs (owned, n)
          ≡ (owned ++ numbered ts n (points_of bs), n + length (points_of bs)))
        × (length (points_of bs) ≡ 11 * length bs + transfer_count bs)
  backend_points-numbered ts bs owned n = (
    backend_points-adds ts bs (owned, n) ∙ adds-numbered ts (points_of bs) owned n,
    length-points_of bs,
  )
