-- ===== src/Api/Security/Lost.antt =====
-- What becomes of the credentials in a token of GetToken, where the tokens are JWTs.
use vsphere_facade.Prelude.{List, Option, [], ◌∷◌, ◌*◌, ◌+◌, ◌≡◌, none, some, ok, ℕ}
use vsphere_facade.Server.{Server}
use vsphere_facade.Security.Aes.{Bytes, Cipher}
use vsphere_facade.Security.Tokens.{Auth, Claims, Json, JwtLibrary, jwt_generate, jwt_parse}
use vsphere_facade.Security.Tokens.Laws.{ReadsBack, DecodesShort, jwt_parse-generate_plain}
use vsphere_facade.Codes.{success}
use vsphere_facade.Api.{
  Connection, Gateway, Handler, ReqParamError, bound, checked, response, token,
}
use vsphere_facade.Api.Security.{TokenTool, get_token, get_token_tool, verify_token}

-- The claims of a token that is generated at a time, and credentials without a text.
abbrev pub claims_at : ℕ → Auth → Claims
claims_at now auth = record { auth = auth; expires_at = now + 3 * 3600 }

abbrev pub no_auth : Auth
no_auth = record { address = []; username = []; password = [] }

module _ (c : Cipher) (json : Json) (l : JwtLibrary) where
  abbrev pub jwt_tool : ℕ → TokenTool
  jwt_tool now = get_token_tool c json l now "jwt"

  module _ {W D S I : Type 0} (auth : Auth) (byte : ℕ) (rest : Bytes) where
    verify_token-empty :
        (now : ℕ) (next : Option Auth → Handler W D S I) (s : Server W D S)
        → jwt_parse c l (byte ∷ rest) ≡ ok no_auth
        → verify_token (jwt_tool now) (byte ∷ rest) next s ≡ next (some no_auth) s
    unfolding verify_token get_token_tool
    verify_token-empty now next s parsed = rw (verify_token, parsed)

    get_token-given :
        (now : ℕ) (gateway : Gateway W) (valid : Auth → List ReqParamError) (s : Server W D S)
        (w : W) (conn : Connection W)
        → valid auth ≡ []
        → gateway.connect auth s.vcenter ≡ (w, ok conn)
        → jwt_generate l now auth ≡ some (byte ∷ rest)
        → (get_token {I = I} gateway (jwt_tool now) valid (bound auth) s).1
          ≡ ok (response 200 success (token (byte ∷ rest)), none)
    unfolding get_token get_token_tool
    get_token-given now gateway valid s w conn fine connected signed =
        rw (get_token, checked, fine, connected, signed)

    -- With JWTs, GetToken answers with a token that loses the credentials: Verify lets every request
    -- with it through, at any later time at which the library still takes it, and its handler runs with
    -- an empty address, name and password. It is so where the credentials, which are not encrypted,
    -- decode from base64 to less than a block of the cipher.
    pub get_token-loses :
        (now : ℕ) (gateway : Gateway W) (valid : Auth → List ReqParamError) (s : Server W D S)
        (w : W) (conn : Connection W)
        → valid auth ≡ []
        → gateway.connect auth s.vcenter ≡ (w, ok conn)
        → jwt_generate l now auth ≡ some (byte ∷ rest)
        → ReadsBack c l (claims_at now auth)
        → DecodesShort c auth.address
        → DecodesShort c auth.username
        → DecodesShort c auth.password
        → ((get_token {I = I} gateway (jwt_tool now) valid (bound auth) s).1
            ≡ ok (response 200 success (token (byte ∷ rest)), none))
          × ((later : ℕ) (next : Option Auth → Handler W D S I) (t : Server W D S)
              → verify_token (jwt_tool later) (byte ∷ rest) next t ≡ next (some no_auth) t)
    get_token-loses now gateway valid s w conn fine connected signed read address username
          password =
        (
          get_token-given now gateway valid s w conn fine connected signed,
          λ later next t. verify_token-empty later next t (
              jwt_parse-generate_plain c l now auth (byte ∷ rest) signed read address username
                password),
        )
