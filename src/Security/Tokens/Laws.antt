-- ===== src/Security/Tokens/Laws.antt =====
-- What a token gives back, of api/security/bearer and api/security/jwt.
use vsphere_facade.Prelude.{[], length, ok, some, true, ℕ, ◌*◌, ◌+◌, ◌<◌, ◌≡◌}
use vsphere_facade.Security.Aes.{Bytes, Cipher, aes_encrypt}
use vsphere_facade.Security.Aes.RoundTrip.{aes_decrypt-encrypt, aes_decrypt_short}
use vsphere_facade.Security.Tokens.{
  Auth, Json, Claims, JwtLibrary, parsed, bearer_generate, bearer_parse, jwt_generate, jwt_parse,
}

module _ (c : Cipher) where
  -- A bearer token parses to the credentials that it was generated from, if JSON reads back what it
  -- wrote for them.
  pub bearer_parse-generate :
      (j : Json) (a : Auth) (b : Bytes)
      → j.marshal a ≡ some b
      → j.unmarshal b ≡ some a
      → (t : Bytes) × (bearer_generate c j a ≡ some t) × (bearer_parse c j t ≡ ok a)
  unfolding bearer_generate bearer_parse
  bearer_parse-generate j a b written read =
      (aes_encrypt c b, rw (written, bearer_generate), rw (aes_decrypt-encrypt c b, read))

  -- The library reads a token of these claims back, with the flag Valid.
  abbrev pub ReadsBack : JwtLibrary → Claims → Type 0
  ReadsBack l claims =
      (t : Bytes) → l.signed_string claims ≡ some t → l.parse_with_claims t ≡ parsed claims true

  abbrev pub DecodesShort : Bytes → Type 0
  DecodesShort t = length (c.base64_decode t) < 16

  -- A JWT that was generated from plain credentials, as GetToken does, and that the library reads
  -- back as valid, does not give them back: where the fields decode to less than a block it parses
  -- to empty credentials.
  pub jwt_parse-generate_plain :
      (l : JwtLibrary) (now : ℕ) (a : Auth) (t : Bytes)
      → jwt_generate l now a ≡ some t
      → ReadsBack l (record { auth = a; expires_at = now + 3 * 3600 })
      → DecodesShort a.address
      → DecodesShort a.username
      → DecodesShort a.password
      → jwt_parse c l t ≡ ok (record { address = []; username = []; password = [] })
  unfolding jwt_parse jwt_generate
  jwt_parse-generate_plain l now a t signed read h k m = rw (
    read t signed,
    jwt_parse,
    aes_decrypt_short c a.address h,
    aes_decrypt_short c a.username k,
    aes_decrypt_short c a.password m,
  )
