-- ===== src/Security/Tokens.antt =====
-- api/security/bearer and api/security/jwt: the two kinds of token that carry the credentials.
pub mod Laws
use vsphere_facade.Prelude.{
  Bool, Option, Outcome, err, if◌then◌else◌, none, not, ok, or_err, some, wrap_err, ℕ, ◌*◌, ◌+◌,
  ◌>>=◌,
}
use vsphere_facade.Security.Aes.{Bytes, Cipher, aes_encrypt, aes_decrypt}

-- vsphere.Auth
pub record Auth : Type 0 where
  pub address : Bytes
  pub username : Bytes
  pub password : Bytes

-- The errors of Parse, which carry the codes of api/e/code.go.
pub data TokenError : Type 0 where
  token_invalid token_expired unauthorized : TokenError

-- encoding/json at vsphere.Auth
pub record Json : Type 0 where
  pub marshal : Auth → Option Bytes
  pub unmarshal : Bytes → Option Auth

-- jwt.Claims of the program
pub record Claims : Type 0 where
  pub auth : Auth
  pub expires_at : ℕ

-- What jwt.ParseWithClaims gives: claims with the flag Valid, or a validation error.
pub data Parsed : Type 0 where
  parsed : Claims → Bool → Parsed
  expired_error other_error : Parsed

-- golang-jwt under the secret of the configuration
pub record JwtLibrary : Type 0 where
  pub signed_string : Claims → Option Bytes
  pub parse_with_claims : Bytes → Parsed

module _ (c : Cipher) where
  -- AesDecrypt returns no error, so the code that it would have is of no matter.
  unfoldable pub decrypt_field : Bytes → Outcome TokenError Bytes
  decrypt_field t = wrap_err (λ _. token_invalid) (aes_decrypt c t)

  -- bearer.Token.Generate; `none` is the error of json.Marshal
  unfoldable pub bearer_generate : Json → Auth → Option Bytes
  bearer_generate j a = elim (j.marshal a) [ none ↦ none | some b ↦ some (aes_encrypt c b) ]

  -- bearer.Token.Parse
  unfoldable pub bearer_parse : Json → Bytes → Outcome TokenError Auth
  unfolding decrypt_field
  bearer_parse j token =
      decrypt_field token >>= λ de_token. or_err token_invalid (j.unmarshal de_token)

  -- jwt.Token.Parse
  unfoldable pub jwt_parse : JwtLibrary → Bytes → Outcome TokenError Auth
  unfolding decrypt_field
  jwt_parse l token = elim (l.parse_with_claims token) [
    | expired_error ↦ err token_expired
    | other_error ↦ err unauthorized
    | parsed claims valid ↦ if not valid then err token_invalid else do
      address ← decrypt_field claims.auth.address
      username ← decrypt_field claims.auth.username
      password ← decrypt_field claims.auth.password
      ok (record { address = address; username = username; password = password })
  ]

-- jwt.Token.Generate at the time `now`, in seconds: the token lives for three hours.
unfoldable pub jwt_generate : JwtLibrary → ℕ → Auth → Option Bytes
jwt_generate l now a = l.signed_string (record { auth = a; expires_at = now + 3 * 3600 })
