-- ===== src/Ftp/Http.antt =====
-- aeroftp/src/http/server.rs: the requests that the HTTP server answers. JSON, the filter directives and the
-- metrics registry are parameters.
use aerosuite.Base.{
  ℕ, bytes_eq, ◌*◌, Bytes, codes, Bool, true, false, Option, none, some, [], ◌++◌, ltb, length,
  if◌then◌else◌, ◌==◌,
}

pub data Endpoint : Type 0 where
  metrics config : Endpoint

-- Endpoint::from_str
unfoldable pub endpoint_of : Bytes → Option Endpoint
endpoint_of s =
    if s == codes "/metrics"
    then some metrics
    else if s == codes "/config"
    then some config
    else none

pub data Method : Type 0 where
  get post other : Method

-- The body is `none` where it could not be read.
pub record Request : Type 0 where
  pub method : Method
  pub path : Bytes
  pub body : Option Bytes

pub record Response : Type 0 where
  pub status : ℕ
  pub content : Bytes

abbrev pub empty_response : ℕ → Response
empty_response status = record { status = status; content = [] }

abbrev pub bad_request : Bytes → Response
bad_request content = record { status = 400; content = content }

-- A value, or the text of the error.
pub data Parsed (A : Type 0) : Type 0 where
  good : A → Parsed A
  bad : Bytes → Parsed A

-- What the handler is given: the directives as filters, the JSON reader (the field log_level), the metrics
-- as they are when it gathers them, and whether the subscriber is still there.
pub record Surroundings : Type 1 where
  pub Filter : Type 0
  pub try_new : Bytes → Parsed Filter
  pub parse_json : Bytes → Parsed Bytes
  pub gathered : Option Bytes
  pub subscriber_alive : Bool

abbrev pub max_body : ℕ
max_body = 8 * 1024

module _ (env : Surroundings) where
  abbrev pub Answer : Type 0
  Answer = Response × env.Filter

  unfoldable pub handle_metrics : Option Bytes → Response
  handle_metrics (some text) = record { status = 200; content = text }
  handle_metrics none = empty_response 500

  -- filter_handle.modify
  unfoldable pub set_filter : Bool → env.Filter → env.Filter → Answer
  set_filter true new filter = (empty_response 200, new)
  set_filter false new filter = (empty_response 500, filter)

  unfoldable pub with_filter : Bytes → Parsed env.Filter → env.Filter → Answer
  unfolding set_filter
  with_filter level (bad e) filter =
      (bad_request (codes "invalid log level '" ++ (level ++ (codes "': " ++ e))), filter)
  with_filter level (good new) filter = set_filter env.subscriber_alive new filter

  unfoldable pub with_config : Parsed Bytes → env.Filter → Answer
  unfolding with_filter
  with_config (bad e) filter = (bad_request (codes "invalid JSON: " ++ e), filter)
  with_config (good level) filter = with_filter level (env.try_new level) filter

  unfoldable pub handle_config : Option Bytes → env.Filter → Answer
  unfolding with_config
  handle_config none filter = (bad_request [], filter)
  handle_config (some body) filter =
      if ltb max_body (length body)
      then (bad_request (codes "request body too large"), filter)
      else with_config (env.parse_json body) filter

  unfoldable pub route : Method → Option Endpoint → Request → env.Filter → Answer
  unfolding handle_metrics handle_config
  route get (some metrics) req filter = (handle_metrics env.gathered, filter)
  route post (some config) req filter = handle_config req.body filter
  route m none req filter = (empty_response 404, filter)
  route m (some e) req filter = (empty_response 405, filter)

  unfoldable pub router : Request → env.Filter → Answer
  unfolding endpoint_of route
  router req filter = route req.method (endpoint_of req.path) req filter
