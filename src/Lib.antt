-- ===== src/Lib.antt =====
-- aerosuite: a fleet of FTP servers behind IPVS, whose members claim numbered slots from a pool in Redis,
-- and a master that watches the fleet, cleans up after lost members and scales it.
--
-- The parts, and the files that model them:
-- * aerocore/src/slot_network.rs, the addresses of the slots: SlotNetwork, and
--   SlotNetwork/Imds for from_imds.
-- * aeroslot/src/lua.rs, the pool as four Lua scripts (LUA_INIT, LUA_CLAIM, LUA_RENEW, LUA_RELEASE) and their
--   client: SlotPool has the scripts, SlotPool/Commands/Lua the commands; build_redis_client of
--   aerocore/src/redis_pool/mod.rs and the entry points of both clients: SlotPool/Client.
-- * aeroslot/src/main.rs, the native client, which does the same by single Redis commands: SlotPool/Commands
--   (init, claim, renew, release and the heartbeat), SlotPool/Publish (the messages on the channel
--   asg-change), SlotPool/Status (cmd_status of both clients), SlotPool/Heartbeat (other clients that run
--   scripts between its ticks).
-- * aeroscale/src/snapshot, what the master sees: Snapshot (the data and their joins, mod.rs), Snapshot/Leases
--   (leases.rs), Asg (asg.rs), Collect (SystemSnapshot::collect), Collect/Ipvs (ipvs.rs), Collect/Weights
--   (weights.rs).
-- * aeroscale/src/vrrp.rs, who is the master: Vrrp; aeroscale/src/bin/aeroscale.rs, the refresh loop, which
--   composes the parts of the master: Daemon (one round) and Daemon/Loop (the rounds and their waits).
-- * aerocore/src/aws/mod.rs, what AWS is asked and answers: Xml (extract_balanced and its like) and Aws
--   (credentials, metadata service), with Aws/Sign for sigv4_sign;
--   aerocore/src/asg/mod.rs, the requests about the group: Asg.
-- * aeroplug/src/attach.rs, which moves a network interface to this instance: Attach (selection and single
--   requests) and Attach/Commands (the wait and the commands); aeroplug/src/assign_ip.rs: AssignIp.
-- * aeroscale/src/metrics, what Prometheus and CloudWatch see of the fleet: Metrics (the store, mod.rs),
--   Metrics/Scrape (scrape.rs), Metrics/Exposition (exposition.rs), Metrics/CloudWatch (cloudwatch.rs),
--   Metrics/Push (scrape_and_push of mod.rs).
-- * aeropulse/src/main.rs, the configuration of keepalived on a load balancer node: Pulse (arguments and
--   data), Pulse/Resolve (the instance metadata), Pulse/Backends, Pulse/Checks, Pulse/VrrpConf and
--   Pulse/Scripts (the texts, word for word), Pulse/Main (the order of the writes).
-- * aeroftp/src, the FTP server on a backend: Ftp (the login, ftp/auth.rs, provider.rs and user.rs),
--   Ftp/Storage (the upload, ftp/storage.rs), Ftp/Http (the HTTP server, http/server.rs).
-- * aeroscale/src/bin/scale.rs and aws-config.rs: Tools; the startup of aeroscale.rs: Daemon/Startup.
-- * aeroscale/src/cleanup/mod.rs, the cleanup pass: Cleanup (sections 2.1 and 2.3), Cleanup/Orphans (section
--   2.2 and the whole pass).
-- * aeroscale/src/listener.rs, the messages that make the master act at once: Listener.
-- * aeroscale/src/scaler.rs, the decision engine: Scaler (data, /proc/net/dev, slope), Scaler/ScaleUp,
--   Scaler/Drain, Scaler/Pass.
-- * aeroscale/src/weight_sync.rs, the weight files at startup and their copy in Redis: WeightSync, and
--   WeightSync/Startup for the choice at startup; WeightSync/Restore has a host to run it on.
-- The other files hold proofs; each begins with what it is about. Tests runs the models.
--
-- Effects. Program has the commands that these parts send to Redis, to the clocks, to the file system and
-- to AWS, and programs as trees of commands: an async function is a value that says which command it sends
-- first and what it does with each reply. A statement about every reply is a predicate on that tree
-- (Emits, Returns), or one on the tree with what was seen before (Follows, Observes, in Program/Observed),
-- which the statements about the daemon, the cleanup, the scaler and the takeover use: each names what it has
-- seen (Seen in Daemon/Copies, Readings in Cleanup/Safety, Looks in Scaler/Selection, Described in
-- Attach/Guard) and what a command may be after that; a run
-- needs an environment (Env), and SlotPool/Server is one: a Redis with other effects of a session, where
-- each command may fail before or after its effect. Redis itself is not code of this repository:
-- Redis.antt is the interface of what the parts use of it (string keys, two sorted sets), with the
-- documented behaviour as laws, and Redis/Table a table that has these laws. SlotPool/View is the abstract
-- state of one slot.
--
-- Numbers. u32 and u64 sums wrap as in the release profile; the i64 capacities of an ASG are unbounded
-- integers; the scores of sorted sets are natural numbers, as doubles are up to 2^53. f64 in the scaler and
-- in the metrics is a record of operations (Floats, Values) of which nothing is assumed. Instants are
-- nanoseconds, and what the clock says is a reply.
--
-- Loops run over lists (the reads of an upload are one), over a number of rounds that is computed from
-- the arguments, over the number of attempts that an argument allows (the renewal of the heartbeat, which
-- sleeps for the retry delay between two of them), over the number of intervals before SIGTERM (the
-- heartbeat), over the waits or connections so far (the rounds of the master, the listener; these three go on
-- for ever, and the model has each beginning of them), or on fuel: one round more than a text has characters
-- in Xml, where each round passes a tag, and timeout / 2 + 2 rounds of the wait in Attach/Commands, where
-- each round sleeps two seconds. A loop without fuel left returns none; for
-- extract_balanced, the walk over sibling elements and the wait the results below say that this does not
-- happen.
--
-- Not modelled: fields that are only shown (remaining_secs, taken_at), logging and printed tables (only the
-- line with the slot is an effect), argument parsing, TLS itself (only how the client is set up for it), the
-- HTTPS requests to AWS, JSON and the hash functions (parameters), the Prometheus parser (a parameter), the
-- servers of metrics/server.rs and of aeroftp with their connections, signals and restart, the storage
-- operations of aeroftp that are handed on, tracing, the cross-check of the metrics with IPVS, which only
-- logs. An exit with
-- status 1 is an error result.
mod Base
pub mod Program
pub mod Redis
pub mod SlotNetwork
pub mod SlotPool
pub mod Snapshot
pub mod Cleanup
pub mod Listener
pub mod Scaler
pub mod WeightSync
pub mod Xml
pub mod Aws
pub mod Asg
pub mod Attach
pub mod AssignIp
pub mod Collect
pub mod Vrrp
pub mod Daemon
pub mod Metrics
pub mod Pulse
pub mod Ftp
pub mod Tools
mod Tests
