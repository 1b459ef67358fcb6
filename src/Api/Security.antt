-- ===== src/Api/Security.antt =====
-- api/security/security.go, and ErrHandler of api/e/handler.go, which stand around the handlers.
pub mod Guard
pub mod Lost
use vsphere_facade.Prelude.{
  Bool, List, Option, Outcome, String, [], ◌∷◌, ◌==◌, if◌then◌else◌, none, some, ok, err, panic, ℕ,
  string_eq,
}
use vsphere_facade.Action.{Action, give, lift, ◌>>=◌}
use vsphere_facade.Server.{Server, on_vcenter}
use vsphere_facade.Security.Aes.{Bytes, Cipher}
use vsphere_facade.Security.Tokens.{
  Auth, Json, JwtLibrary, TokenError, bearer_generate, bearer_parse, jwt_generate, jwt_parse,
}
use vsphere_facade.Codes.{
  bad_request, connect_failed, get_message, success, system_error, token_expired, token_invalid,
  unauthorized,
}
use vsphere_facade.Api.{
  Bound, Gateway, Handler, Job, Reply, ReqParamError, answer, checked, nothing, response, token,
}

-- The interface Token: `none` of Generate is an error.
pub record TokenTool : Type 0 where
  pub generate : Auth → Option Bytes
  pub parse : Bytes → Outcome TokenError Auth

-- getTokenTool, at the time `now` of a Generate
unfoldable pub get_token_tool : Cipher → Json → JwtLibrary → ℕ → String → TokenTool
unfolding bearer_generate bearer_parse jwt_generate jwt_parse
get_token_tool c json l now t =
    if t == "jwt"
    then record { generate = jwt_generate l now; parse = jwt_parse c l }
    else record { generate = bearer_generate c json; parse = bearer_parse c json }

-- The text of the errors of Parse: they carry a code.
abbrev pub token_error_code : TokenError → String
token_error_code TokenError.token_invalid = token_invalid
token_error_code TokenError.token_expired = token_expired
token_error_code TokenError.unauthorized = unauthorized

-- The value that recover gives
pub data PanicValue : Type 0 where
  error_value text_value : String → PanicValue
  other_value : PanicValue

-- stringutils.EPTThen
unfoldable pub ept_then : String → String → String
ept_then s other = if s == "" then other else s

unauthorized_reply : {I : Type 0} → String → Reply I
unauthorized_reply message = record {
  status = 401;
  code = unauthorized;
  message = message;
  payload = nothing;
}

panic_message : PanicValue → String
unfolding get_message ept_then
panic_message (error_value e) = get_message e
panic_message (text_value e) = ept_then (get_message e) (get_message system_error)
panic_message other_value = get_message system_error

module _ {W D S I : Type 0} where
  -- Verify: a request whose header has no token that parses does not reach its handler.
  unfoldable pub verify_token :
      TokenTool → Bytes → (Option Auth → Handler W D S I) → Handler W D S I
  unfolding unauthorized_reply get_message
  verify_token tool [] next s = answer (unauthorized_reply (get_message unauthorized)) s
  verify_token tool (byte ∷ header) next s = elim (tool.parse (byte ∷ header)) [
    | panic ↦ (s, panic)
    | err e ↦ answer (unauthorized_reply (get_message (token_error_code e))) s
    | ok auth ↦ next (some auth) s
  ]

  -- GetToken: vsphere.Get panics where it gets no connection, so there is always one to test.
  unfoldable pub get_token :
      Gateway W → TokenTool → (Auth → List ReqParamError) → Bound Auth → Handler W D S I
  unfolding checked response
  get_token gateway tool valid body =
      checked (λ _. bad_request) valid body
        λ auth. on_vcenter (gateway.connect auth) >>= λ c. elim (tool.generate auth) [
          | none ↦ answer (response 500 system_error nothing)
          | some t ↦ answer (response 200 success (token t))
        ]

  -- ErrHandler: a panic of a handler, with the value `value`, is answered.
  unfoldable pub err_handler :
      PanicValue → Handler W D S I → Server W D S → Server W D S × Reply I × Option (Job W D S)
  unfolding panic_message
  err_handler value handle s =
      let (t, r) = handle s in
      elim r [
        | ok (reply, job) ↦ (t, reply, job)
        | err e ↦ elim e [ ]
        | panic ↦ (
          t,
          record {
            status = 500;
            code = system_error;
            message = panic_message value;
            payload = nothing;
          },
          none,
        )
      ]
