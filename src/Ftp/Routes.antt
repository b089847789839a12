-- ===== src/Ftp/Routes.antt =====
-- aeroftp/src/http/server.rs: which requests change the filter.
use aerosuite.Base.{
  bytes_eq, bytes_beq_iff, bytes_beq, ◌≤◌, ◌≡◌, refl, Bytes, codes, true, false, Option, none, some,
  [], ltb, length, arith, Bool-cases, inl, inr, ◌⊎◌,
}
use aerosuite.Ftp.Http.{
  Endpoint, metrics, config, endpoint_of, Method, get, post, other, Request, Response, Parsed, good,
  bad, Surroundings, max_body, handle_config, with_config, with_filter, set_filter, route, router,
}

module _ (env : Surroundings) where
  -- The request asks for the filter, and can be granted it.
  abbrev pub Sets : Request → env.Filter → Type 0
  Sets req new =
      (body : Bytes) × (level : Bytes) × (req.method ≡ post)
      × (req.path ≡ codes "/config")
      × (req.body ≡ some body)
      × (length body ≤ max_body)
      × (env.parse_json body ≡ good level)
      × (env.try_new level ≡ good new)
      × (env.subscriber_alive ≡ true)

  abbrev pub Outcome : Request → env.Filter → Response × env.Filter → Type 0
  Outcome req filter answer =
      (answer.1 ≡ filter)
      ⊎ ((new : env.Filter) × Sets req new × (answer.1 ≡ new) × (answer.0.status ≡ 200))

  endpoint-config : (s : Bytes) → endpoint_of s ≡ some config → s ≡ codes "/config"
  unfolding endpoint_of
  endpoint-config s h =
      ground (arith, h, bytes_beq_iff s (codes "/metrics"), bytes_beq_iff s (codes "/config"))

  config-endpoint : endpoint_of (codes "/config") ≡ some config
  unfolding endpoint_of bytes_beq
  config-endpoint = refl

  filter-Outcome :
      (req : Request) (filter : env.Filter) (body level : Bytes) (o : Parsed env.Filter)
      → req.method ≡ post
      → req.path ≡ codes "/config"
      → req.body ≡ some body
      → length body ≤ max_body
      → env.parse_json body ≡ good level
      → env.try_new level ≡ o
      → Outcome req filter (with_filter env level o filter)
  unfolding with_filter set_filter
  filter-Outcome req filter body level (bad e) m p b l j t = inl refl
  filter-Outcome req filter body level (good new) m p b l j t =
      elim (Bool-cases env.subscriber_alive) [
        | inl a ↦ inr (new, (body, level, m, p, b, l, j, t, a), rw a refl, rw a refl)
        | inr a ↦ inl (rw a refl)
      ]

  config-Outcome :
      (req : Request) (filter : env.Filter) (body : Bytes) (o : Parsed Bytes)
      → req.method ≡ post
      → req.path ≡ codes "/config"
      → req.body ≡ some body
      → length body ≤ max_body
      → env.parse_json body ≡ o
      → Outcome req filter (with_config env o filter)
  unfolding with_config
  config-Outcome req filter body (bad e) m p b l j = inl refl
  config-Outcome req filter body (good level) m p b l j =
      filter-Outcome req filter body level (env.try_new level) m p b l j refl

  body-Outcome :
      (req : Request) (filter : env.Filter) (o : Option Bytes)
      → req.method ≡ post
      → req.path ≡ codes "/config"
      → req.body ≡ o
      → Outcome req filter (handle_config env o filter)
  unfolding handle_config
  body-Outcome req filter none m p b = inl refl
  body-Outcome req filter (some body) m p b = elim (Bool-cases (ltb max_body (length body))) [
    | inl l ↦ rw l (inl refl)
    | inr l ↦
        rw l (config-Outcome req filter body (env.parse_json body) m p b (ground (arith, l)) refl)
  ]

  route-Outcome :
      (req : Request) (filter : env.Filter) (m : Method) (e : Option Endpoint)
      → req.method ≡ m
      → endpoint_of req.path ≡ e
      → Outcome req filter (route env m e req filter)
  unfolding route
  route-Outcome req filter post (some config) m e =
      body-Outcome req filter req.body m (endpoint-config req.path e) refl
  route-Outcome req filter get (some metrics) m e = inl refl
  route-Outcome req filter get (some config) m e = inl refl
  route-Outcome req filter post (some metrics) m e = inl refl
  route-Outcome req filter other (some metrics) m e = inl refl
  route-Outcome req filter other (some config) m e = inl refl
  route-Outcome req filter get none m e = inl refl
  route-Outcome req filter post none m e = inl refl
  route-Outcome req filter other none m e = inl refl

  granted :
      (req : Request) (filter new : env.Filter)
      → Sets req new
      → router env req filter ≡ (record { status = 200; content = [] }, new)
  unfolding router route handle_config with_config with_filter set_filter
  granted req filter new (body, level, m, p, b, l, j, t, a) =
      let small : ltb max_body (length body) ≡ false = ground (arith, l) in
      simp (m, p, config-endpoint, b, j, t, a) (rw small refl)

  -- A request leaves the filter as it is, or it is answered with status 200 and the filter is then one that it
  -- may set: by POST /config, with a body of at most 8192 bytes that is read as a directive and made into a
  -- filter while the subscriber is there. Each request that may set a filter does so.
  pub router-Outcome :
      (req : Request) (filter : env.Filter)
      → Outcome req filter (router env req filter)
        × ((new : env.Filter)
            → Sets req new
            → router env req filter ≡ (record { status = 200; content = [] }, new))
  unfolding router
  router-Outcome req filter =
      (route-Outcome req filter req.method (endpoint_of req.path) refl refl, granted req filter)
