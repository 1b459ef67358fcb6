-- ===== src/Examples/Tokens.antt =====
-- Runs of app/utils/aes.go and of the tokens of api/security, under a cipher that changes nothing.
use vsphere_facade.Prelude.{
  List, Option, String, ℕ, none, arith, [], ok, refl, some, true, ◌*◌, ◌+◌, ◌∷◌, ◌≡◌,
}
use vsphere_facade.Cache.{Text}
use vsphere_facade.Hypervisor.{PowerState, powered_off}
use vsphere_facade.Codes.{success}
use vsphere_facade.Callback.{Delivery}
use vsphere_facade.Api.{Handler, bound, response, token}
use vsphere_facade.Api.Security.{get_token, verify_token}
use vsphere_facade.Api.Security.Lost.{get_token-loses, jwt_tool, no_auth}
use vsphere_facade.Examples.Program.{State, connection, idle, program}
use vsphere_facade.Security.Aes.{Bytes, Cipher, aes_encrypt, aes_decrypt}
use vsphere_facade.Security.Aes.RoundTrip.{aes_decrypt-encrypt}
use vsphere_facade.Security.Tokens.{
  Auth, Json, Claims, JwtLibrary, parsed, bearer_generate, bearer_parse, jwt_generate,
}
use vsphere_facade.Security.Tokens.Laws.{bearer_parse-generate}

abbrev cipher : Cipher
cipher = record {
  encrypt_blocks = λ b. b;
  decrypt_blocks = λ b. b;
  base64_encode = λ b. b;
  base64_decode = λ b. b;
  length-encrypt_blocks = λ b. refl;
  decrypt-encrypt = λ b whole. refl;
  decode-encode = λ b. refl;
}

abbrev auth : Auth
auth = record { address = 104 ∷ []; username = 117 ∷ []; password = 112 ∷ 119 ∷ [] }

-- One token, that reads back as the claims `claims`.
abbrev one_token : Claims → JwtLibrary
one_token claims = record {
  signed_string = λ c. some (1 ∷ []);
  parse_with_claims = λ t. parsed claims true;
}

abbrev one_text : Json
one_text = record { marshal = λ a. some (123 ∷ 125 ∷ []); unmarshal = λ b. some auth }

aes_decrypt-encrypt_example : aes_decrypt cipher (aes_encrypt cipher (1 ∷ 2 ∷ [])) ≡ ok (1 ∷ 2 ∷ [])
aes_decrypt-encrypt_example = aes_decrypt-encrypt cipher (1 ∷ 2 ∷ [])

bearer_parse-generate_example :
    (t : Bytes) × (bearer_generate cipher one_text auth ≡ some t)
    × (bearer_parse cipher one_text t ≡ ok auth)
bearer_parse-generate_example =
    bearer_parse-generate cipher one_text auth (123 ∷ 125 ∷ []) refl refl

abbrev plain_claims : Claims
plain_claims = record { auth = auth; expires_at = 100 + 3 * 3600 }

plain_signed : jwt_generate (one_token plain_claims) 100 auth ≡ some (1 ∷ [])
unfolding jwt_generate
plain_signed = refl

get_token-loses_example :
    ((get_token {I = String} program.gateway
        (jwt_tool cipher one_text (one_token plain_claims) 100)
        (λ a. [])
        (bound auth)
        idle).1
      ≡ ok (response 200 success (token (1 ∷ [])), none))
    × ((later : ℕ)
          (next : Option Auth → Handler PowerState (List (Text × Text)) (Delivery String) String)
          (t : State)
        → verify_token (jwt_tool cipher one_text (one_token plain_claims) later) (1 ∷ []) next t
          ≡ next (some no_auth) t)
get_token-loses_example =
    get_token-loses cipher one_text (one_token plain_claims) auth 1 [] 100 program.gateway (λ a. [])
      idle powered_off connection refl refl plain_signed (λ t signed. refl) (omega arith)
      (omega arith) (omega arith)
