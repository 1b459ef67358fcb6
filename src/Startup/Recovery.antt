-- ===== src/Startup/Recovery.antt =====
-- What a start of the program does with the requests that an interruption left.
use vsphere_facade.Prelude.{
  Option-cases, inl, inr, List, Option, [], All, ap, arith, false, if◌then◌else◌, list_eq, nat_eq,
  none, ok, panic, refl, sym, some, ◌++◌, ◌∙◌, ◌∷◌, ◌≡◌,
}
use mathlib.Core.List.{append_assoc, append-nil}
use vsphere_facade.Utils.{nil_next, slice_contain}
use vsphere_facade.Cache.{Text}
use vsphere_facade.Server.{Server}
use vsphere_facade.Requests.{Badger, cancel, get_received_req, keys_of}
use vsphere_facade.Requests.Tracking.{
  BadgerLaws, Ids, received-same, received, without_id, received-cancel,
}
use vsphere_facade.Callback.{CallbackReq, Delivery, Http, HttpLibrary, no_data}
use vsphere_facade.Callback.Delivery.{report, callback_err-sends, callback_err-nowhere, NoAddress}
use vsphere_facade.Startup.{
  RequestJson, callback_of, report_all, cancel_request, interrupt_task_callback, interrupted,
}

module _ {V : Type 0} (d : CallbackReq) (j : RequestJson V) where
  -- Where a request is reported to: its own address, or else that of the configuration.
  abbrev pub address_of : Text → Option Http
  address_of p = elim (callback_of j p) [
    | none ↦ none
    | some callback_req ↦ nil_next callback_req.http_post (d.http_post ∷ [])
  ]

  -- One report of the interruption for each request that has an address.
  abbrev pub reports : (I : Type 0) → List (Text × Text) → List (Delivery I)
  reports I [] = []
  reports I (e ∷ req) = elim (address_of e.1) [
    | none ↦ reports I req
    | some cb ↦ (cb, report e.0 no_data (some interrupted)) ∷ reports I req
  ]

  -- The JSON of the request can be read, and there is an address that the library takes.
  abbrev pub IsReachable : HttpLibrary → Text × Text → Type 0
  IsReachable http e =
      (cb : Http) × (address_of e.1 ≡ some cb) × (http.new_request_error cb.url ≡ none)

reports-cons :
    {V I : Type 0} (d : CallbackReq) (j : RequestJson V) (id p : Text) (req : List (Text × Text))
    (cb : Http)
    → address_of d j p ≡ some cb
    → reports d j I ((id, p) ∷ req) ≡ (cb, report id no_data (some interrupted)) ∷ reports d j I req
reports-cons d j id p req cb named = ground (arith)

abbrev pub without_ids : List Text → Ids → Ids
without_ids [] ids = ids
without_ids (k ∷ ks) ids = without_ids ks (without_id k ids)

without_ids-contain :
    (ks : List Text) (ids : Ids) (k : Text)
    → without_ids ks ids k ≡ (if slice_contain ks k then false else ids k)
unfolding slice_contain
without_ids-contain [] ids k = refl
without_ids-contain (x ∷ ks) ids k = ground (arith, without_ids-contain ks (without_id x ids) k)

module _ {W D I V : Type 0} (b : Badger D) (http : HttpLibrary) (d : CallbackReq)
    (j : RequestJson V) where
  report_all-step :
      (id p : Text) (req : List (Text × Text)) (s : Server W D (Delivery I)) (cb : Http)
      → address_of d j p ≡ some cb
      → http.new_request_error cb.url ≡ none
      → report_all b http (some d) j ((id, p) ∷ req) s
        ≡ report_all b http (some d) j req (
            cancel b id
              (record s { sent = s.sent ++ ((cb, report id no_data (some interrupted)) ∷ []) }))
  unfolding report_all cancel_request
  report_all-step id p req s cb named made = elim (Option-cases (callback_of j p)) [
    | inl unread ↦
        let lost : ◌≡◌ {A = Option Http} none (some cb) = rw (unread, address_of) at named in cc
    | inr (callback_req, read) ↦
        rw
          (
            read,
            report_all,
            callback_err-sends http d callback_req id no_data interrupted s cb
                (rw (read, address_of) at named) made,
          )
          refl
  ]

  module _ (laws : BadgerLaws b) where
    -- What the loop leaves for the requests that it went through.
    record Reported (req : List (Text × Text)) (s t : Server W D (Delivery I)) : Type 0 where
      kept : t.vcenter ≡ s.vcenter
      told : t.sent ≡ s.sent ++ reports d j I req
      cancelled : received b t ≡ without_ids (keys_of req) (received b s)

    report_all-Reported :
        (req : List (Text × Text)) (s : Server W D (Delivery I))
        → All (IsReachable d j http) req
        → ((report_all b http (some d) j req s).1 ≡ ok tt)
          × Reported req s (report_all b http (some d) j req s).0
    unfolding report_all cancel
    report_all-Reported [] s reachable =
        (refl, record { kept = refl; told = sym (append-nil s.sent); cancelled = refl })
    report_all-Reported ((id, p) ∷ req) s reachable =
        let cb : Http = reachable.0.0 in
        let telling : Delivery I = (cb, report id no_data (some interrupted)) in
        let told : Server W D (Delivery I) = record s { sent = s.sent ++ (telling ∷ []) } in
        let ih = report_all-Reported req (cancel b id told) reachable.1 in
        rw (report_all-step id p req s cb reachable.0.1 reachable.0.2) (
          ih.0,
          record {
            kept = ih.1.kept;
            told =
                ih.1.told
                ∙ append_assoc s.sent (telling ∷ []) (reports d j I req)
                ∙ sym (ap (λ l. s.sent ++ l) (reports-cons d j id p req cb reachable.0.1));
            cancelled =
                ih.1.cancelled
                ∙ ap (without_ids (keys_of req)) (
                    received-cancel b laws id told
                    ∙ ap (without_id id) (received-same b told s refl));
          },
        )

    without_every :
        (s : Server W D (Delivery I)) (k : Text)
        → without_ids (keys_of (get_received_req b s)) (received b s) k ≡ false
    unfolding received
    without_every s k = ground (
      arith,
      without_ids-contain (keys_of (get_received_req b s))
          (λ x. slice_contain (keys_of (get_received_req b s)) x) k,
    )

    -- If every request that is left can be read and has an address, a start of the program reports the
    -- interruption once for each of them, in their order, leaves the vCenter alone, and no request.
    pub interrupt_task_callback-clears :
        (s : Server W D (Delivery I))
        → All (IsReachable d j http) (get_received_req b s)
        → ((interrupt_task_callback b http (some d) j s).1 ≡ ok tt)
          × ((interrupt_task_callback b http (some d) j s).0.vcenter ≡ s.vcenter)
          × ((interrupt_task_callback b http (some d) j s).0.sent
              ≡ s.sent ++ reports d j I (get_received_req b s))
          × ((id : Text) → received b (interrupt_task_callback b http (some d) j s).0 id ≡ false)
    unfolding interrupt_task_callback
    interrupt_task_callback-clears s reachable =
        let left = report_all-Reported (get_received_req b s) s reachable in
        (
          left.0,
          left.1.kept,
          left.1.told,
          λ id. ap (λ (ids : Ids). ids id) left.1.cancelled ∙ without_every s id,
        )

module _ {W D I V : Type 0} (b : Badger D) (http : HttpLibrary) (j : RequestJson V) where
  -- A request that has no address is met first: the start panics and leaves all as it was, the request
  -- too, so that every later start panics again.
  pub interrupt_task_callback-panics :
      (default_callback : Option CallbackReq) (s : Server W D (Delivery I)) (id p : Text)
      (req : List (Text × Text)) (callback_req : CallbackReq)
      → get_received_req b s ≡ (id, p) ∷ req
      → callback_of j p ≡ some callback_req
      → NoAddress default_callback callback_req
      → interrupt_task_callback b http default_callback j s ≡ (s, panic)
  unfolding interrupt_task_callback
  interrupt_task_callback-panics default_callback s id p req callback_req first read nowhere =
      rw (first) (
        rw (read, report_all)
          (rw
            (callback_err-nowhere http default_callback callback_req id no_data interrupted s
              nowhere)
            refl))
