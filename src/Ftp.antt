-- ===== src/Ftp.antt =====
-- aeroftp/src/ftp/auth.rs, provider.rs and user.rs: who a session belongs to.
pub mod Storage
pub mod Http
pub mod Routes
pub mod Uploads
use aerosuite.Base.{
  ◌+◌, ◌-◌, Bytes, codes, Bool, Option, none, some, List, ◌++◌, is_empty, lookup, bytes_eq,
}
use aerosuite.Program.{Call, Prog, ret, send, Result, ok, err, Error, missing_field, ◌>>=◌, ◌>>=?◌}

-- unftp_core::auth::Principal and Credentials; an address is its text.
pub record Principal : Type 0 where
  pub username : Bytes
  pub source_ip : Option Bytes

pub record Credentials : Type 0 where
  pub source_ip : Bytes

pub record AeroUser : Type 0 where
  pub username : Bytes
  pub client_ip : Bytes
  pub system_meta : List (Bytes × Bytes)
  pub quarantined : Bool

-- AeroUser::require
unfoldable pub require : AeroUser → Bytes → Result Bytes
require user key = elim (lookup key user.system_meta) [ none ↦ err missing_field | some v ↦ ok v ]

-- AeroAuthenticator::authenticate; the inner authenticator is a parameter.
unfoldable pub authenticate :
    (Bytes → Credentials → Prog (Result Principal)) → Bytes → Credentials → Prog (Result Principal)
authenticate inner username creds = inner username creds >>=? λ principal.
    ret (ok (record principal { source_ip = some creds.source_ip }))

abbrev pub user_key : Bytes → Bytes
user_key client_ip = codes "systems:by-ip:" ++ client_ip

-- An address without an entry is accepted, in quarantine.
abbrev pub user_of : Bytes → Bytes → List (Bytes × Bytes) → AeroUser
user_of username client_ip system_meta = record {
  username = username;
  client_ip = client_ip;
  system_meta = system_meta;
  quarantined = is_empty system_meta;
}

unfoldable pub detail_of : Bytes → Option Bytes → Prog (Result AeroUser)
detail_of username none = ret (err missing_field)
detail_of username (some client_ip) = send (Call.hgetall (user_key client_ip)) >>=? λ system_meta.
    ret (ok (user_of username client_ip system_meta))

unfoldable pub provide_user_detail : Principal → Prog (Result AeroUser)
unfolding detail_of
provide_user_detail principal = detail_of principal.username principal.source_ip
