-- ===== src/Api/Security/Guard.antt =====
-- What Verify of api/security/security.go lets through.
use vsphere_facade.Prelude.{
  Option, Outcome, [], ◌∷◌, ◌≢◌, ◌≡◌, ◌⊎◌, inl, inr, none, some, ok, err, panic, ℕ, refl,
}
use vsphere_facade.Server.{Server}
use vsphere_facade.Security.Aes.{Bytes}
use vsphere_facade.Security.Tokens.{Auth, TokenError}
use vsphere_facade.Codes.{unauthorized}
use vsphere_facade.Api.{Handler, Reply, Job}
use vsphere_facade.Api.Security.{TokenTool, verify_token}

-- The request is not let through: the state is as it was, and the answer is 401 with the code for it
-- and no task, or the parser panicked.
abbrev pub Refused :
    {W D S I : Type 0}
    → Server W D S
    → Server W D S × Outcome ⊥ (Reply I × Option (Job W D S))
    → Type 0
Refused {W} {D} {S} {I} s r =
    (r.0 ≡ s)
    × ((r.1 ≡ panic)
        ⊎ ((reply : Reply I) × (r.1 ≡ ok (reply, none))
            × (reply.status ≡ 401)
            × (reply.code ≡ unauthorized)))

module _ {W D S I : Type 0} (tool : TokenTool) (next : Option Auth → Handler W D S I)
    (s : Server W D S) where
  -- What happens to a request with this header, by what the parser makes of the token.
  abbrev pub Guarded : Bytes → Type 0
  Guarded header =
      ((auth : Auth) × (header ≢ [])
        × (tool.parse header ≡ ok auth)
        × (verify_token tool header next s ≡ next (some auth) s))
      ⊎ (((header ≡ []) ⊎ ((auth : Auth) → tool.parse header ≢ ok auth))
          × Refused s (verify_token tool header next s))

  Guarded-parse :
      (byte : ℕ) (header : Bytes) (r : Outcome TokenError Auth)
      → tool.parse (byte ∷ header) ≡ r
      → Guarded (byte ∷ header)
  unfolding verify_token
  Guarded-parse byte header (ok auth) parsed =
      inl (auth, (λ h. cc), parsed, rw (parsed, verify_token) refl)
  Guarded-parse byte header (err e) parsed =
      inr (inr (λ auth h. cc), rw (parsed, verify_token) (refl, inr (_, refl, refl, refl)))
  Guarded-parse byte header panic parsed =
      inr (inr (λ auth h. cc), rw (parsed, verify_token) (refl, inl refl))

  -- Either the header holds a token that parses, and the handler runs with the credentials of the
  -- token; or there is no such token, and the request is refused whatever the handler is.
  pub verify_token-guards : (header : Bytes) → Guarded header
  unfolding verify_token
  verify_token-guards [] = inr (inl refl, (refl, inr (_, refl, refl, refl)))
  verify_token-guards (byte ∷ header) = Guarded-parse byte header (tool.parse (byte ∷ header)) refl
