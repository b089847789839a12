-- ===== src/Daemon/Passive.antt =====
-- Commands that only read, and programs of a round that send no others.
use aerosuite.Base.{
  ℕ, bytes_eq, bytes_beq, ◌≡◌, refl, Bytes, codes, Bool, true, false, Option, none, some, List, [],
  ◌∷◌, ◌++◌, Option-cases, inl, inr, ◌==◌,
}
use aerosuite.Program.{Call, Result, ok, err, Emits, Error, bad_argument}
use aerosuite.Program.Laws.{Emits-bind, Emits-then, Emits-on_ok, Emits-if}
use aerosuite.Aws.{Params, AwsCredentials, fetch_imds_credentials, fetch_imds_path, required}
use aerosuite.Snapshot.Leases.{Cache, read_loop, read_all as read_leases, lease_entries}
use aerosuite.Asg.{describe, read_all as read_asg}
use aerosuite.Collect.Weights.{read_entries, file_ip, read_all as read_weights}
use aerosuite.Daemon.{expiring, refresh_credentials}

-- The Action parameter of a request, which comes first.
abbrev action : Params → Bytes
action [] = []
action ((key, value) ∷ params) = value

-- Commands that only read.
unfoldable pub is_passive : Call → Bool
is_passive (Call.get key) = true
is_passive (Call.zscore z m) = true
is_passive (Call.zrangebyscore z max) = true
is_passive (Call.zrange_withscores z) = true
is_passive (Call.zcard z) = true
is_passive Call.now_ms = true
is_passive Call.instant_now = true
is_passive Call.read_proc_net_dev = true
is_passive Call.read_dir = true
is_passive (Call.read_file name) = true
is_passive (Call.aws_query host service region params) =
    action params == codes "DescribeAutoScalingGroups"
is_passive Call.imds_token = true
is_passive (Call.imds_get token path) = true
is_passive Call.ip_addr_show = true
is_passive Call.read_proc_ip_vs = true
is_passive _ = false

unfoldable pub Passive : Call → Type 0
unfolding is_passive
Passive c = is_passive c ≡ true

fetch_imds_path-Passive : (token path : Bytes) → Emits Passive (fetch_imds_path token path)
unfolding fetch_imds_path Passive
fetch_imds_path-Passive token path = (refl, λ r. Emits-on_ok Passive _ r (λ v. tt))

required-Passive : {A : Type 0} (e : Error) (o : Option A) → Emits Passive (required e o)
required-Passive e none = tt
required-Passive e (some a) = tt

expiring-Passive :
    (creds : AwsCredentials) (expiry : Option ℕ) → Emits Passive (expiring creds expiry)
unfolding expiring Passive
expiring-Passive creds none = tt
expiring-Passive creds (some t) = (refl, λ now. tt)

fetch_imds_credentials-Passive :
    (parse : Bytes → Option AwsCredentials) → Emits Passive (fetch_imds_credentials parse)
unfolding fetch_imds_credentials Passive
fetch_imds_credentials-Passive parse = (
  refl,
  λ r.
      unfold Passive in
      Emits-on_ok Passive _ r (λ token.
        Emits-then Passive (fetch_imds_path token (codes "iam/security-credentials/")) _
          (fetch_imds_path-Passive token (codes "iam/security-credentials/"))
          (λ role_name.
            Emits-then Passive
              (fetch_imds_path token (codes "iam/security-credentials/" ++ role_name)) _
              (fetch_imds_path-Passive token (codes "iam/security-credentials/" ++ role_name))
              (λ creds_json. required-Passive bad_argument (parse creds_json)))),
)

pub refresh_credentials-Passive :
    (parse : Bytes → Option AwsCredentials) (creds : AwsCredentials)
    → Emits Passive (refresh_credentials parse creds)
unfolding refresh_credentials
refresh_credentials-Passive parse creds =
    Emits-bind Passive (expiring creds creds.expiration) _ (expiring-Passive creds creds.expiration)
      (λ needs_refresh.
        Emits-if Passive needs_refresh _ _
          (λ e.
            Emits-bind Passive (fetch_imds_credentials parse) _
              (fetch_imds_credentials-Passive parse) (λ r. tt))
          (λ e. tt))

read_entries-Passive : (names : List Bytes) → Emits Passive (read_entries names)
unfolding read_entries Passive
read_entries-Passive [] = tt
read_entries-Passive (name ∷ names) = elim (Option-cases (file_ip name)) [
  | inl e ↦ rw e (read_entries-Passive names)
  | inr (ip, e) ↦ rw e (
    refl,
    λ r. Emits-on_ok Passive _ r (λ raw.
        Emits-bind Passive (read_entries names) _ (read_entries-Passive names) (λ rest. tt)),
  )
]

pub read_weights-Passive : Emits Passive read_weights
unfolding read_weights Passive
read_weights-Passive = (
  refl,
  λ r. Emits-on_ok Passive _ r (λ names.
      Emits-then Passive (read_entries names) _ (read_entries-Passive names) (λ entries. tt)),
)

read_loop-Passive : (raw : List (Bytes × ℕ)) (cache : Cache) → Emits Passive (read_loop raw cache)
unfolding read_loop Passive
read_loop-Passive [] cache = tt
read_loop-Passive ((slot_str, score) ∷ raw) cache =
    (refl, λ r. Emits-bind Passive (read_loop raw _) _ (read_loop-Passive raw _) (λ found. tt))

lease_entries-Passive :
    (cache : Cache) (r : Result (List (Bytes × ℕ))) → Emits Passive (lease_entries cache r)
unfolding lease_entries Passive
lease_entries-Passive cache (err e) = tt
lease_entries-Passive cache (ok entries) = (
  refl,
  λ now.
      Emits-bind Passive (read_loop entries cache) _ (read_loop-Passive entries cache)
        (λ found. tt),
)

pub read_leases-Passive : (cache : Cache) → Emits Passive (read_leases cache)
unfolding read_leases Passive
read_leases-Passive cache = (refl, λ r. unfold Passive in lease_entries-Passive cache r)

describe-Passive : (region asg_name : Bytes) → Emits Passive (describe region asg_name)
unfolding describe Passive is_passive bytes_beq
describe-Passive region asg_name =
    (refl, λ r. Emits-on_ok (λ c. is_passive c ≡ true) _ r (λ xml. tt))

pub read_asg-Passive : (region asg_name : Bytes) → Emits Passive (read_asg region asg_name)
unfolding read_asg
read_asg-Passive region asg_name =
    Emits-then Passive (describe region asg_name) _ (describe-Passive region asg_name)
      (λ groups. tt)
