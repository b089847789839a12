-- ===== src/Aws/Sign.antt =====
-- aerocore/src/aws/mod.rs: sigv4_sign, and the headers that aws_query sends. The hash functions, the hex
-- encoding and the formatting of the time are those of other packages.
use aerosuite.Base.{
  ℕ, sort_by, bytes_leb, ◌≡◌, refl, Bytes, codes, Bool, Option, none, some, List, [], ◌∷◌, ◌++◌,
}
use aerosuite.Aws.{AwsCredentials}

pub record Primitives : Type 0 where
  pub sha256_hex : Bytes → Bytes
  pub hmac_sha256 : Bytes → Bytes → Bytes
  pub hex_encode : Bytes → Bytes
  -- The formats %Y%m%dT%H%M%SZ and %Y%m%d of a time.
  pub amz_date : ℕ → Bytes
  pub date_stamp : ℕ → Bytes

abbrev pub Header : Type 0
Header = Bytes × Bytes

abbrev token_header : Option Bytes → List Header
token_header none = []
token_header (some token) = (codes "x-amz-security-token", token) ∷ []

abbrev pub by_name : Header → Header → Bool
by_name a b = bytes_leb a.0 b.0

-- The headers that are signed, sorted by their names.
unfoldable pub headers_to_sign : Bytes → Bytes → Option Bytes → List Header
headers_to_sign host date session_token = sort_by by_name (
    (codes "content-type", codes "application/x-www-form-urlencoded")
    ∷ (codes "host", host)
    ∷ (codes "x-amz-date", date)
    ∷ token_header session_token)

unfoldable pub canonical_headers : List Header → Bytes
canonical_headers [] = []
canonical_headers ((name, value) ∷ hs) =
    name ++ (codes ":" ++ (value ++ (b'\n' ∷ canonical_headers hs)))

-- The names, with semicolons between them.
unfoldable pub signed_headers : List Header → Bytes
signed_headers [] = []
signed_headers ((name, value) ∷ []) = name
signed_headers ((name, value) ∷ h ∷ hs) = name ++ (codes ";" ++ signed_headers (h ∷ hs))

abbrev line : Bytes → Bytes → Bytes
line a rest = a ++ (b'\n' ∷ rest)

pub record SigV4Result : Type 0 where
  pub authorization : Bytes
  pub x_amz_date : Bytes

module _ (P : Primitives) where
  unfoldable pub canonical_request : Bytes → Bytes → List Header → Bytes → Bytes
  unfolding canonical_headers signed_headers
  canonical_request method path headers body = line method (
      line path (
        line []
          (line (canonical_headers headers) (line (signed_headers headers) (P.sha256_hex body)))))

  abbrev pub credential_scope : Bytes → Bytes → Bytes → Bytes
  credential_scope date region service =
      date ++ (codes "/" ++ (region ++ (codes "/" ++ (service ++ codes "/aws4_request"))))

  unfoldable pub string_to_sign : Bytes → Bytes → Bytes → Bytes
  string_to_sign date scope request =
      line (codes "AWS4-HMAC-SHA256") (line date (line scope (P.sha256_hex request)))

  -- k_date, k_region, k_service and k_signing
  unfoldable pub signing_key : Bytes → Bytes → Bytes → Bytes → Bytes
  signing_key secret date region service =
      let k_date = P.hmac_sha256 (codes "AWS4" ++ secret) date in
      let k_region = P.hmac_sha256 k_date region in
      let k_service = P.hmac_sha256 k_region service in
      P.hmac_sha256 k_service (codes "aws4_request")

  unfoldable pub sigv4_sign :
      ℕ → Bytes → Bytes → Bytes → Bytes → Bytes → Bytes → Bytes → Bytes → Option Bytes → SigV4Result
  unfolding headers_to_sign canonical_request string_to_sign signing_key
  sigv4_sign now method host path body service region access_key_id secret_access_key
        session_token =
      let date = P.amz_date now in
      let stamp = P.date_stamp now in
      let headers = headers_to_sign host date session_token in
      let scope = credential_scope stamp region service in
      let key = signing_key secret_access_key stamp region service in
      let text = string_to_sign date scope (canonical_request method path headers body) in
      record {
        authorization =
            codes "AWS4-HMAC-SHA256 Credential="
            ++ (access_key_id
                ++ (codes "/"
                    ++ (scope
                        ++ (codes ", SignedHeaders="
                            ++ (signed_headers headers
                                ++ (codes ", Signature="
                                    ++ P.hex_encode (P.hmac_sha256 key text)))))));
        x_amz_date = date;
      }

-- The headers of the request; those of the connection, such as the host, are its library's.
unfoldable pub request_headers : SigV4Result → AwsCredentials → List Header
request_headers sig creds =
    (codes "Content-Type", codes "application/x-www-form-urlencoded")
    ∷ (codes "x-amz-date", sig.x_amz_date)
    ∷ (codes "Authorization", sig.authorization)
    ∷ token_header creds.session_token

-- The names that sigv4_sign lists as signed are the three of every request, and that of the session token
-- exactly when there is one, in the order of the canonical request, whatever the values are.
signed_headers-headers_to_sign :
    (host date token : Bytes)
    → (signed_headers (headers_to_sign host date none) ≡ codes "content-type;host;x-amz-date")
      × (signed_headers (headers_to_sign host date (some token))
          ≡ codes "content-type;host;x-amz-date;x-amz-security-token")
unfolding signed_headers headers_to_sign bytes_leb sort_by
signed_headers-headers_to_sign host date token = (refl, refl)
