-- ===== src/Program.antt =====
-- The commands that the programs send to what lies outside of them (Redis, the clock, the file
-- system, the AWS API), and programs as trees of such commands: an async function of the source is
-- a value that says which command it sends first and what it does with each reply.
pub mod Laws
pub mod Observed
use aerosuite.Base.{ℕ, Bytes, Bool, Option, List, [], ◌∷◌, ◌++◌}

-- redis_pool/mod.rs: the two sorted sets `slots:available` and `slots:leases`.
pub data SortedSet : Type 0 where
  available leases : SortedSet

-- The JSON object published on the `asg-change` channel.
pub record AsgChange : Type 0 where
  pub slot : ℕ
  pub action : Bytes
  pub instance_id : Option Bytes

-- The four embedded Lua scripts with their arguments.
pub data Script : Type 0 where
  script_init : ℕ → ℕ → Script
  script_claim : ℕ → Bytes → ℕ → Script
  script_renew : Bytes → Bytes → ℕ → ℕ → Script
  script_release : Bytes → Bytes → ℕ → Script

abbrev pub ScriptReply : Script → Type 0
ScriptReply (script_init min max) = ℕ
ScriptReply (script_claim now owner ttl) = Option Bytes
ScriptReply (script_renew slot owner now ttl) = ℕ
ScriptReply (script_release slot owner now) = ℕ

-- What `redis::RedisError` says of itself: an I/O error or a dropped connection, or another error.
pub data Failure : Type 0 where
  transient permanent : Failure

pub data Error : Type 0 where
  call_failed : Failure → Error
  min_above_max no_owner no_free_slot not_owner : Error
  owned_by_other : Bytes → Error
  -- The AWS programs: an answer without what it must hold, nothing found, an interface without an
  -- attachment or in another state, a wait that ran out, and arguments or settings that cannot be read.
  unexpected_response no_match missing_field not_attached timed_out bad_argument : Error
  unexpected_status : Bytes → Error

pub data Result {ℓ} (A : Type ℓ) : Type ℓ where
  ok : A → Result A
  err : Error → Result A

-- One reading of an interface's receive counter is a text, `/proc/net/dev`.
pub data Call : Type 0 where
  get : Bytes → Call
  set_key : Bytes → Bytes → Call
  del : Bytes → Call
  zscore : SortedSet → Bytes → Call
  zadd : SortedSet → Bytes → ℕ → Call
  zadd_nx : SortedSet → Bytes → ℕ → Call
  zrem : SortedSet → Bytes → Call
  zrangebyscore : SortedSet → ℕ → Call
  zpopmin : SortedSet → Call
  zrange_withscores : SortedSet → Call
  zcard : SortedSet → Call
  eval : Script → Call
  publish : AsgChange → Call
  print_slot : Bytes → Call
  notify_main : Call
  connect : Call
  now_ms instant_now : Call
  write_weight_file : ℕ → Bytes → Call
  read_proc_net_dev : Call
  -- The directory of the weight files: its file names, and the content of a file.
  read_dir : Call
  read_file : Bytes → Call
  write_file : Bytes → Bytes → Call
  terminate : Bytes → Bool → Call
  set_desired : Bytes → ℕ → Call
  -- aerocore/src/aws: a signed request of the Query API (host, service, region, parameters), and the
  -- instance metadata service.
  aws_query : Bytes → Bytes → Bytes → List (Bytes × Bytes) → Call
  imds_token : Call
  imds_get : Bytes → Bytes → Call
  sleep_secs sleep_ms : ℕ → Call
  create_dir : Bytes → Call
  write_text : Bytes → Bytes → Call
  -- The exit status and the output of `ip addr show`.
  ip_addr_show : Call
  read_proc_ip_vs : Call
  -- A GET of a URL, up to the text of an answer with a status of success.
  http_get : Bytes → Call
  set_permissions : Bytes → ℕ → Call
  hgetall : Bytes → Call
  -- An object of the store with its metadata, its content piece by piece, and its end.
  open_writer : Bytes → List (Bytes × Bytes) → Call
  write_chunk : Bytes → Call
  shutdown_writer : Call

abbrev pub Reply : Call → Type 0
Reply (get key) = Result (Option Bytes)
Reply (zscore z member) = Result (Option ℕ)
Reply (zadd_nx z member score) = Result ℕ
Reply (zrangebyscore z max) = Result (List Bytes)
Reply (zpopmin z) = Result (Option (Bytes × ℕ))
Reply (zrange_withscores z) = Result (List (Bytes × ℕ))
Reply (zcard z) = Result ℕ
Reply (eval script) = Result (ScriptReply script)
Reply (print_slot slot) = Unit {0}
Reply notify_main = Unit {0}
Reply now_ms = ℕ
Reply instant_now = ℕ
Reply read_proc_net_dev = Result Bytes
Reply read_dir = Result (List Bytes)
Reply (read_file name) = Result Bytes
Reply (aws_query host service region params) = Result Bytes
Reply imds_token = Result Bytes
Reply (imds_get token path) = Result Bytes
Reply (sleep_secs n) = Unit {0}
Reply (sleep_ms n) = Unit {0}
Reply ip_addr_show = Result (Bool × Bytes)
Reply read_proc_ip_vs = Result Bytes
Reply (http_get url) = Result Bytes
Reply (hgetall key) = Result (List (Bytes × Bytes))
Reply _ = Result (Unit {0})

pub data Prog (A : Type 0) : Type 0 where
  ret : A → Prog A
  call : (c : Call) → (Reply c → Prog A) → Prog A

infixl 5 ◌>>=◌ ◌>>◌
abbrev pub ◌>>=◌ : {A B : Type 0} → Prog A → (A → Prog B) → Prog B
ret a >>= f = f a
call c k >>= f = call c (λ r. k r >>= f)

abbrev pub ◌>>◌ : {A B : Type 0} → Prog A → Prog B → Prog B
m >> n = m >>= λ _. n

abbrev pub send : (c : Call) → Prog (Reply c)
send c = call c ret

-- The `?` operator: an error ends the function.
abbrev pub on_ok : {A B : Type 0} → (A → Prog (Result B)) → Result A → Prog (Result B)
on_ok f (ok a) = f a
on_ok f (err e) = ret (err e)

infixl 5 ◌>>=?◌
abbrev pub ◌>>=?◌ : {A B : Type 0} → Prog (Result A) → (A → Prog (Result B)) → Prog (Result B)
m >>=? f = m >>= on_ok f

-- What surrounds the programs: any state, and any reply to each command.
pub record Env : Type 1 where
  pub World : Type 0
  pub exec : (c : Call) → World → Reply c × World

unfoldable pub run : {A : Type 0} (env : Env) → Prog A → env.World → A × env.World
run env (ret a) w = (a, w)
run env (call c k) w = run env (k (env.exec c w).0) (env.exec c w).1

-- The commands sent in a run, in their order.
unfoldable pub trace : {A : Type 0} (env : Env) → Prog A → env.World → List Call
trace env (ret a) w = []
trace env (call c k) w = c ∷ trace env (k (env.exec c w).0) (env.exec c w).1

-- Whatever the replies are, each command that is sent satisfies `P`.
abbrev pub Emits : {A : Type 0} → (Call → Type 0) → Prog A → Type 0
Emits P (ret a) = Unit {0}
Emits P (call c k) = P c × ((r : Reply c) → Emits P (k r))

-- Whatever the replies are, the result satisfies `Q`.
abbrev pub Returns : {A : Type 0} → (A → Type 0) → Prog A → Type 0
Returns Q (ret a) = Q a
Returns Q (call c k) = (r : Reply c) → Returns Q (k r)
