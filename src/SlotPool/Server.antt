-- ===== src/SlotPool/Server.antt =====
-- A Redis server in a session of commands: the database, the clock, the messages published, the
-- slots printed for the calling script, and what the network does to each command.
use aerosuite.Base.{
  ℕ, ◌+◌, ◌*◌, Bytes, Option, none, some, List, [], ◌∷◌, length, ◌++◌, is_some, if◌then◌else◌,
}
use aerosuite.Program.{
  SortedSet, Script, ScriptReply, script_init, script_claim, script_renew, script_release, Call,
  Reply, Result, ok, err, call_failed, transient, permanent, AsgChange, Env,
}
use aerosuite.Redis.{Redis}
use aerosuite.SlotPool.{lua_init, lua_claim, lua_renew, lua_release}

-- A command is answered, or lost on its way, or carried out with its answer lost.
pub data Fate : Type 0 where
  answered lost unanswered : Fate

module _ (R : Redis) where
  open R use {Db, get, set, del, score, add, rem, up_to, first, members}

  pub record Session : Type 0 where
    pub db : Db
    pub clock : ℕ
    pub channel : List AsgChange
    pub printed : List Bytes
    pub fates : List Fate

  -- A command in a session; when the list of fates is used up every command is answered.
  unfoldable pub deliver : {A : Type 0} → (Db → A × Db) → Session → List Fate → Result A × Session
  deliver f s [] = (ok (f s.db).0, record s { db = (f s.db).1 })
  deliver f s (answered ∷ r) = (ok (f s.db).0, record s { db = (f s.db).1; fates = r })
  deliver f s (lost ∷ r) = (err (call_failed transient), record s { fates = r })
  deliver f s (unanswered ∷ r) =
      (err (call_failed transient), record s { db = (f s.db).1; fates = r })

  abbrev pub pop_first : SortedSet → Db → Option (Bytes × ℕ) → Option (Bytes × ℕ) × Db
  pop_first z d none = (none, d)
  pop_first z d (some (m, s)) = (some (m, s), rem z m d)

  abbrev pub add_new : SortedSet → Bytes → ℕ → Db → ℕ × Db
  add_new z m s d = if is_some (score z m d) then (0, d) else (1, add z m s d)

  unfoldable pub eval_script : (script : Script) → Db → ScriptReply script × Db
  eval_script (script_init min max) d = lua_init R min max d
  eval_script (script_claim now owner ttl) d = lua_claim R now owner ttl d
  eval_script (script_renew slot owner now ttl) d = lua_renew R slot owner now ttl d
  eval_script (script_release slot owner now) d = lua_release R slot owner now d

  -- Files and the AWS API are not the server's business: they answer and change nothing here.
  unfoldable pub answer : (c : Call) → Session → Reply c × Session
  unfolding deliver eval_script
  answer (Call.get key) s = deliver (λ d. (get key d, d)) s s.fates
  answer (Call.set_key key value) s = deliver (λ d. (tt, set key value d)) s s.fates
  answer (Call.del key) s = deliver (λ d. (tt, del key d)) s s.fates
  answer (Call.zscore z m) s = deliver (λ d. (score z m d, d)) s s.fates
  answer (Call.zadd z m n) s = deliver (λ d. (tt, add z m n d)) s s.fates
  answer (Call.zadd_nx z m n) s = deliver (add_new z m n) s s.fates
  answer (Call.zrem z m) s = deliver (λ d. (tt, rem z m d)) s s.fates
  answer (Call.zrangebyscore z max) s = deliver (λ d. (up_to z max d, d)) s s.fates
  answer (Call.zpopmin z) s = deliver (λ d. pop_first z d (first z d)) s s.fates
  answer (Call.zrange_withscores z) s = deliver (λ d. (members z d, d)) s s.fates
  answer (Call.zcard z) s = deliver (λ d. (length (members z d), d)) s s.fates
  answer (Call.eval script) s = deliver (eval_script script) s s.fates
  answer (Call.publish m) s = (ok tt, record s { channel = s.channel ++ m ∷ [] })
  answer (Call.print_slot slot) s = (tt, record s { printed = s.printed ++ slot ∷ [] })
  answer Call.connect s = (ok tt, s)
  answer Call.notify_main s = (tt, s)
  answer Call.now_ms s = (s.clock, s)
  answer Call.instant_now s = (s.clock * 1000000, s)
  answer (Call.write_weight_file ip value) s = (ok tt, s)
  answer Call.read_proc_net_dev s = (err (call_failed permanent), s)
  answer Call.read_dir s = (err (call_failed permanent), s)
  answer (Call.read_file name) s = (err (call_failed permanent), s)
  answer (Call.write_file name content) s = (err (call_failed permanent), s)
  answer (Call.terminate id decrement) s = (ok tt, s)
  answer (Call.set_desired asg n) s = (ok tt, s)
  answer (Call.aws_query h v g ps) s = (err (call_failed permanent), s)
  answer Call.imds_token s = (err (call_failed permanent), s)
  answer (Call.imds_get t p) s = (err (call_failed permanent), s)
  answer (Call.sleep_secs n) s = (tt, s)
  answer (Call.sleep_ms n) s = (tt, record s { clock = s.clock + n })
  answer (Call.create_dir p) s = (err (call_failed permanent), s)
  answer (Call.write_text p t) s = (err (call_failed permanent), s)
  answer Call.ip_addr_show s = (err (call_failed permanent), s)
  answer Call.read_proc_ip_vs s = (err (call_failed permanent), s)
  answer (Call.http_get url) s = (err (call_failed permanent), s)
  answer (Call.set_permissions path mode) s = (err (call_failed permanent), s)
  answer (Call.hgetall key) s = (err (call_failed permanent), s)
  answer (Call.open_writer path m) s = (err (call_failed permanent), s)
  answer (Call.write_chunk b) s = (err (call_failed permanent), s)
  answer Call.shutdown_writer s = (err (call_failed permanent), s)

  abbrev pub server : Env
  server = record { World = Session; exec = answer }
