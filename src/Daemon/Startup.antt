-- ===== src/Daemon/Startup.antt =====
-- aeroscale/src/bin/aeroscale.rs, main up to the refresh loop: what the rounds are given.
use aerosuite.Base.{ℕ, trim, Bytes, codes, Option, none, some}
use aerosuite.Program.{Call, Prog, ret, send, Result, ok, err, bad_argument, ◌>>=◌, ◌>>=?◌}
use aerosuite.Aws.{AwsCredentials, fetch_imds_path, fetch_imds_credentials, required}
use aerosuite.SlotNetwork.{SlotNetwork}
use aerosuite.SlotNetwork.Imds.{from_imds}
use aerosuite.WeightSync.Startup.{parse_ipv4, init_weights}

-- The arguments that the startup reads.
pub record StartArgs : Type 0 where
  pub vip_inside : Option ℕ
  pub slot_base : Option ℕ
  pub slot_offset : Option ℕ
  pub weight_state_ttl : ℕ

pub record Started : Type 0 where
  pub vip_inside : Option ℕ
  pub slot_network : SlotNetwork
  pub creds : AwsCredentials

abbrev found_vip : Result ℕ → Option ℕ
found_vip (ok vip) = some vip
found_vip (err e) = none

unfoldable pub vip_tag : Prog (Result ℕ)
unfolding fetch_imds_path parse_ipv4
vip_tag = send Call.imds_token >>=? λ token.
    fetch_imds_path token (codes "tags/instance/aeroftp-vip-inside") >>=? λ s.
    required bad_argument (parse_ipv4 (trim s))

-- The argument before the tag; without either the node counts as master.
unfoldable pub resolve_vip : Option ℕ → Prog (Option ℕ)
unfolding vip_tag
resolve_vip (some vip) = ret (some vip)
resolve_vip none = vip_tag >>= λ r. ret (found_vip r)

-- Both arguments, or the instance metadata.
unfoldable pub resolve_network : Option ℕ → Option ℕ → Prog (Result SlotNetwork)
unfolding from_imds
resolve_network (some base) (some offset) =
    ret (ok (record { base = base; offset = offset; prefix_len = 0 }))
resolve_network (some base) none = from_imds
resolve_network none offset = from_imds

-- A failed initialisation of the weight files is logged.
unfoldable pub startup : (Bytes → Option AwsCredentials) → StartArgs → Prog (Result Started)
unfolding resolve_vip resolve_network fetch_imds_credentials init_weights
startup parse args = resolve_vip args.vip_inside >>= λ vip.
    resolve_network args.slot_base args.slot_offset >>=? λ net.
    fetch_imds_credentials parse >>=? λ creds. send Call.connect >>=? λ connected.
    init_weights net args.weight_state_ttl >>= λ initialised.
    ret (ok (record { vip_inside = vip; slot_network = net; creds = creds }))
