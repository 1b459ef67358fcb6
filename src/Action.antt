-- ===== src/Action.antt =====
-- Code that calls the vCenter: it takes the state of the world, and gives the state that it leaves
-- beside a value, an error or a panic. What was done before an error stays done.
use vsphere_facade.Prelude.{Outcome, ap, err, inl, inr, ok, panic, refl, ◌∙◌, ◌≡◌, ◌⊎◌}

abbrev pub Action : Type 0 → Type 0 → Type 0 → Type 0
Action W E A = W → W × Outcome E A

module _ {W E A : Type 0} where
  abbrev pub give : A → Action W E A
  give a w = (w, ok a)

  abbrev pub fail : E → Action W E A
  fail e w = (w, err e)

  abbrev pub lift : Outcome E A → Action W E A
  lift r w = (w, r)

module _ {W E A B : Type 0} where
  abbrev pub continue : W × Outcome E A → (A → Action W E B) → W × Outcome E B
  continue (w, ok a) f = f a w
  continue (w, err e) f = (w, err e)
  continue (w, panic) f = (w, panic)

  infixl 5 ◌>>=◌ ◌>>◌
  abbrev pub ◌>>=◌ : Action W E A → (A → Action W E B) → Action W E B
  ◌>>=◌ m f w = continue (m w) f

  abbrev pub ◌>>◌ : Action W E A → Action W E B → Action W E B
  m >> k = m >>= λ _. k

module _ {W E F A : Type 0} where
  abbrev pub handle : W × Outcome E A → (E → Action W F A) → W × Outcome F A
  handle (w, ok a) h = (w, ok a)
  handle (w, err e) h = h e w
  handle (w, panic) h = (w, panic)

  -- `if err != nil { … }` with a way on
  abbrev pub catch : Action W E A → (E → Action W F A) → Action W F A
  catch m h w = handle (m w) h

  -- `if err != nil { return wrap(err) }`
  abbrev pub wrap : (E → F) → Action W E A → Action W F A
  wrap f m = catch m (λ e. fail (f e))

module _ {W E A B : Type 0} where
  continue-eq-ok :
      (r : W × Outcome E A) (f : A → Action W E B) {b : B}
      → (continue r f).1 ≡ ok b
      → (w : W) × (a : A) × (r ≡ (w, ok a)) × (continue r f ≡ f a w)
  continue-eq-ok (w, ok a) f h = (w, a, refl, refl)
  continue-eq-ok (w, err e) f h = cc
  continue-eq-ok (w, panic) f h = cc

  -- A chain that succeeds is a first step that does, and the rest from where that ends.
  pub >>=-ok :
      (m : Action W E A) (f : A → Action W E B) (w : W) {b : B}
      → ((m >>= f) w).1 ≡ ok b
      → (w' : W) × (a : A) × (m w ≡ (w', ok a)) × ((m >>= f) w ≡ f a w')
  >>=-ok m f w h = continue-eq-ok (m w) f h

module _ {W E A : Type 0} where
  pub eq-ok : (r : W × Outcome E A) {a : A} → r.1 ≡ ok a → r ≡ (r.0, ok a)
  eq-ok r h = ap (λ o. (r.0, o)) h

module _ {W E F A : Type 0} where
  handle-ok :
      (r : W × Outcome E A) (k : E → Action W F A) {a : A}
      → (handle r k).1 ≡ ok a
      → ((r.1 ≡ ok a) × ((handle r k).0 ≡ r.0))
        ⊎ ((w' : W) × (e : E) × (r ≡ (w', err e)) × (handle r k ≡ k e w'))
  handle-ok (w, ok a) k h = inl (cc, refl)
  handle-ok (w, err e) k h = inr (w, e, refl, refl)
  handle-ok (w, panic) k h = cc

  -- A success with a way on is a success of the first attempt, or of the way on from where it ended.
  pub catch-ok :
      (m : Action W E A) (k : E → Action W F A) (w : W) {a : A}
      → (catch m k w).1 ≡ ok a
      → (((m w).1 ≡ ok a) × ((catch m k w).0 ≡ (m w).0))
        ⊎ ((w' : W) × (e : E) × (m w ≡ (w', err e)) × (catch m k w ≡ k e w'))
  catch-ok m k w h = handle-ok (m w) k h

  handle-fail :
      (f : E → F) (r : W × Outcome E A) {a : A}
      → (handle r (λ e. fail {A = A} (f e))).1 ≡ ok a
      → (r.1 ≡ ok a) × ((handle r (λ e. fail {A = A} (f e))).0 ≡ r.0)
  handle-fail f (w, ok a) h = (cc, refl)
  handle-fail f (w, err e) h = cc
  handle-fail f (w, panic) h = cc

  pub wrap-ok :
      (f : E → F) (m : Action W E A) (w : W) {a : A}
      → (wrap f m w).1 ≡ ok a
      → ((m w).1 ≡ ok a) × ((wrap f m w).0 ≡ (m w).0)
  wrap-ok f m w h = handle-fail f (m w) h

-- An action that leaves a property of the world as it was, also where it fails.
abbrev pub Keeps : {W P E A : Type 0} → (W → P) → Action W E A → Type 0
Keeps {W} prop m = (w : W) → prop (m w).0 ≡ prop w

module _ {W P E A B : Type 0} (prop : W → P) where
  Keeps-continue :
      (r : W × Outcome E A) (f : A → Action W E B)
      → ((a : A) → Keeps prop (f a))
      → prop (continue r f).0 ≡ prop r.0
  Keeps-continue (w, ok a) f k = k a w
  Keeps-continue (w, err e) f k = refl
  Keeps-continue (w, panic) f k = refl

  pub Keeps-bind :
      (m : Action W E A) (f : A → Action W E B)
      → Keeps prop m
      → ((a : A) → Keeps prop (f a))
      → Keeps prop (m >>= f)
  Keeps-bind m f km kf w = Keeps-continue (m w) f kf ∙ km w

module _ {W P E F A : Type 0} (prop : W → P) where
  Keeps-handle :
      (r : W × Outcome E A) (f : E → F) → prop (handle r (λ e. fail {A = A} (f e))).0 ≡ prop r.0
  Keeps-handle (w, ok a) f = refl
  Keeps-handle (w, err e) f = refl
  Keeps-handle (w, panic) f = refl

  pub Keeps-wrap : (f : E → F) (m : Action W E A) → Keeps prop m → Keeps prop (wrap f m)
  Keeps-wrap f m km w = Keeps-handle (m w) f ∙ km w

module _ {W E A B : Type 0} where
  -- A chain that fails is a first step that does, or a first step that succeeds and a rest that fails.
  pub continue-err :
      (r : W × Outcome E A) (f : A → Action W E B) {e : E}
      → (continue r f).1 ≡ err e
      → (r.1 ≡ err e) ⊎ ((w : W) × (a : A) × (r ≡ (w, ok a)) × (continue r f ≡ f a w))
  continue-err (w, ok a) f h = inr (w, a, refl, refl)
  continue-err (w, err e) f h = inl cc
  continue-err (w, panic) f h = cc

module _ {W E F A : Type 0} where
  pub wrap-err :
      (f : E → F) (r : W × Outcome E A) {e : F}
      → (handle r (λ e'. fail {A = A} (f e'))).1 ≡ err e
      → (e' : E) × (e ≡ f e')
  wrap-err f (w, ok a) h = cc
  wrap-err f (w, err e') h = (e', cc)
  wrap-err f (w, panic) h = cc
