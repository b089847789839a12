-- ===== src/Aws.antt =====
-- aerocore/src/aws/mod.rs: credentials, the instance metadata service, and the parameters of a request.
pub mod Sign
use aerosuite.Base.{
  ℕ, trim, String, ◌+◌, Bytes, codes, Bool, true, false, Option, none, some, List, ◌++◌, ltb,
}
use aerosuite.Program.{Call, Prog, ret, send, Result, ok, err, bad_argument, Error, ◌>>=?◌}

abbrev pub Params : Type 0
Params = List (Bytes × Bytes)

abbrev pub param : String → Bytes → Bytes × Bytes
param key value = (codes key, value)

-- bool::to_string
abbrev pub bool_text : Bool → Bytes
bool_text true = codes "true"
bool_text false = codes "false"

-- `.context(..)?` on an Option
abbrev pub required : {A : Type 0} → Error → Option A → Prog (Result A)
required e none = ret (err e)
required e (some a) = ret (ok a)

-- AwsCredentials, with the expiration in milliseconds.
pub record AwsCredentials : Type 0 where
  pub access_key_id : Bytes
  pub secret_access_key : Bytes
  pub session_token : Option Bytes
  pub expiration : Option ℕ

abbrev expires_within : Option ℕ → ℕ → ℕ → Bool
expires_within none now threshold = false
expires_within (some expiry) now threshold = ltb expiry (now + threshold)

-- is_expiring_soon at a reading of the clock
unfoldable pub is_expiring_soon : AwsCredentials → ℕ → ℕ → Bool
is_expiring_soon creds now threshold = expires_within creds.expiration now threshold

unfoldable pub fetch_imds_path : Bytes → Bytes → Prog (Result Bytes)
fetch_imds_path token path = send (Call.imds_get token path) >>=? λ value. ret (ok (trim value))

-- `parse` stands for serde_json and the reading of the expiration date.
unfoldable pub fetch_imds_credentials :
    (Bytes → Option AwsCredentials) → Prog (Result AwsCredentials)
unfolding fetch_imds_path
fetch_imds_credentials parse = send Call.imds_token >>=? λ token.
    fetch_imds_path token (codes "iam/security-credentials/") >>=? λ role_name.
    fetch_imds_path token (codes "iam/security-credentials/" ++ role_name) >>=? λ creds_json.
    required bad_argument (parse creds_json)

unfoldable pub fetch_imds_instance_id : Prog (Result Bytes)
unfolding fetch_imds_path
fetch_imds_instance_id =
    send Call.imds_token >>=? λ token. fetch_imds_path token (codes "instance-id")
