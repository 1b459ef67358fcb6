-- ===== src/Callback/Delivery.antt =====
-- When a callback of vsphere/callback/callback.go is sent, and when it panics.
use vsphere_facade.Prelude.{
  Option, Outcome, String, [], ◌∙◌, arith, err, inl, none, ok, panic, refl, some, ◌++◌, ◌∷◌, ◌≡◌,
  ◌↔◌, ◌⊎◌,
}
use vsphere_facade.Utils.{nil_next}
use vsphere_facade.Codes.{success, failed}
use vsphere_facade.Cache.{Text}
use vsphere_facade.Action.{Keeps, give, handle}
use vsphere_facade.Server.{Server}
use vsphere_facade.Callback.{
  CallbackReq, CallbackData, CallbackRes, Delivery, Http, HttpLibrary, callback, send_by_http,
  callback_err,
}

-- There is no address: the configuration has no callback, or neither it nor the request names one.
abbrev pub NoAddress : Option CallbackReq → CallbackReq → Type 0
NoAddress default_callback req =
    (default_callback ≡ none)
    ⊎ ((d : CallbackReq) × (default_callback ≡ some d)
        × (d.http_post ≡ none)
        × (req.http_post ≡ none))

-- The answer that the caller of the API is sent.
abbrev pub report : {I : Type 0} → Text → CallbackData I → Option String → CallbackRes I
report request_id payload error = record {
  request_id = request_id;
  code = elim error [ none ↦ success | some e ↦ failed ];
  message = elim error [ none ↦ "" | some e ↦ e ];
  payload = payload;
}

-- Dropping an error drops no panic.
dropped-panics :
    {S E F : Type 0} (r : S × Outcome E (Unit {0}))
    → ((handle r (λ e. give {E = F} tt)).1 ≡ panic) ↔ (r.1 ≡ panic)
dropped-panics (s, ok x) = ground arith
dropped-panics (s, err e) = ground arith
dropped-panics (s, panic) = ground arith

module _ {W D I : Type 0} (http : HttpLibrary) where
  send_by_http-panics :
      (default_callback : Option CallbackReq) (req : CallbackReq) (res : CallbackRes I)
      (s : Server W D (Delivery I))
      → ((send_by_http http default_callback req res s).1 ≡ panic) ↔ NoAddress default_callback req
  unfolding send_by_http nil_next
  send_by_http-panics none req res s = (λ _. inl refl, λ _. refl)
  send_by_http-panics (some d) req res s = ground arith

  -- A callback panics exactly where there is no address for it.
  pub callback-panics :
      (default_callback : Option CallbackReq) (req : CallbackReq) (request_id : Text)
      (payload : CallbackData I) (error : Option String) (s : Server W D (Delivery I))
      → ((callback http default_callback req request_id payload error s).1 ≡ panic)
        ↔ NoAddress default_callback req
  unfolding callback
  callback-panics default_callback req request_id payload error s =
      let res = report request_id payload error in
      let sent = send_by_http http default_callback req res s in
      let reached = send_by_http-panics default_callback req res s in
      (λ h. reached.0 ((dropped-panics sent).0 h), λ h. (dropped-panics sent).1 (reached.1 h))

  -- Where the library makes the request, a callback sends one report to the address of the request, or
  -- to that of the configuration if the request has none, and succeeds whatever the answer is.
  pub callback-sends :
      (d req : CallbackReq) (request_id : Text) (payload : CallbackData I) (error : Option String)
      (s : Server W D (Delivery I)) (cb : Http)
      → nil_next req.http_post (d.http_post ∷ []) ≡ some cb
      → http.new_request_error cb.url ≡ none
      → callback http (some d) req request_id payload error s
        ≡ (record s { sent = s.sent ++ ((cb, report request_id payload error) ∷ []) }, ok tt)
  unfolding callback
  callback-sends d req request_id payload error s cb named made = ground arith

  -- An error is reported with the code of a failure, and with its text.
  pub callback_err-sends :
      (d req : CallbackReq) (request_id : Text) (payload : CallbackData I) (e : String)
      (s : Server W D (Delivery I)) (cb : Http)
      → nil_next req.http_post (d.http_post ∷ []) ≡ some cb
      → http.new_request_error cb.url ≡ none
      → callback_err http (some d) req request_id payload e s
        ≡ (record s { sent = s.sent ++ ((cb, report request_id payload (some e)) ∷ []) }, ok tt)
  unfolding callback_err
  callback_err-sends d req request_id payload e s cb named made =
      callback-sends d req request_id payload (some e) s cb named made

  send_by_http-nowhere :
      (default_callback : Option CallbackReq) (req : CallbackReq) (res : CallbackRes I)
      (s : Server W D (Delivery I))
      → NoAddress default_callback req
      → send_by_http http default_callback req res s ≡ (s, panic)
  unfolding send_by_http nil_next
  send_by_http-nowhere none req res s nowhere = refl
  send_by_http-nowhere (some d) req res s nowhere = ground arith

  -- Without an address nothing is sent.
  pub callback_err-nowhere :
      (default_callback : Option CallbackReq) (req : CallbackReq) (request_id : Text)
      (payload : CallbackData I) (e : String) (s : Server W D (Delivery I))
      → NoAddress default_callback req
      → callback_err http default_callback req request_id payload e s ≡ (s, panic)
  unfolding callback_err
  callback_err-nowhere default_callback req request_id payload e s nowhere =
      rw (send_by_http-nowhere default_callback req (report request_id payload (some e)) s nowhere)
        refl

  send_by_http-Keeps :
      (default_callback : Option CallbackReq) (req : CallbackReq) (res : CallbackRes I)
      → Keeps (λ (s : Server W D (Delivery I)). s.db) (send_by_http http default_callback req res)
  unfolding send_by_http
  send_by_http-Keeps none req res s = refl
  send_by_http-Keeps (some d) req res s = ground arith

  dropped-db :
      (r : Server W D (Delivery I) × Outcome String (Unit {0}))
      → (handle r (λ e. give {E = ⊥} tt)).0.db ≡ r.0.db
  dropped-db (s, ok x) = refl
  dropped-db (s, err e) = refl
  dropped-db (s, panic) = refl

  -- A callback leaves the task store alone.
  pub callback-Keeps :
      (default_callback : Option CallbackReq) (req : CallbackReq) (request_id : Text)
      (payload : CallbackData I) (error : Option String)
      → Keeps
          (λ (s : Server W D (Delivery I)). s.db)
          (callback http default_callback req request_id payload error)
  unfolding callback
  callback-Keeps default_callback req request_id payload error s =
      let res = report request_id payload error in
      dropped-db (send_by_http http default_callback req res s)
      ∙ send_by_http-Keeps default_callback req res s
