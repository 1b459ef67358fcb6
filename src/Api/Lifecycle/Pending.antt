-- ===== src/Api/Lifecycle/Pending.antt =====
-- The ids of a list of tasks, as a set.
use mathlib.Core.List.{Permᴰ}
use vsphere_facade.Prelude.{
  All, List, subst, ap₂, [], ap, arith, false, fun_ext, list_eq, nat_eq, sym, true, ◌↔◌, ◌++◌, ◌==◌,
  ◌∙◌, ◌∷◌, ◌≡◌, refl,
}
use vsphere_facade.Cache.{Text}
use vsphere_facade.Requests.Tracking.{Ids, no_ids, with_id}
use vsphere_facade.Api.{Job}

module _ {W D S : Type 0} where
  abbrev pub ids_of : List (Job W D S) → Ids
  ids_of [] = no_ids
  ids_of (job ∷ jobs) = with_id job.id (ids_of jobs)

  -- No two of the tasks have one id.
  abbrev pub Distinct : List (Job W D S) → Type 0
  Distinct [] = Unit
  Distinct (job ∷ jobs) = (ids_of jobs job.id ≡ false) × Distinct jobs

with_id_comm : (a b : Text) (ids : Ids) → with_id a (with_id b ids) ≡ with_id b (with_id a ids)
with_id_comm a b ids = fun_ext λ k. ground arith

same_text : (a b : Text) → ((a == b) ≡ true) ↔ (a ≡ b)
same_text a b = list_eq.beq_iff a b

not_in_with :
    (a b : Text) (ids : Ids) → with_id a ids b ≡ false → (ids b ≡ false) × (with_id b ids a ≡ ids a)
not_in_with a b ids absent = ground (arith, same_text a b, same_text b a)

module _ {W D S : Type 0} where
  -- A task taken out of the list: its id is in none of the others, and the others are apart too.
  pub Distinct-middle :
      (before after : List (Job W D S)) (job : Job W D S)
      → Distinct (before ++ (job ∷ after))
      → (ids_of (before ++ after) job.id ≡ false)
        × (ids_of (before ++ (job ∷ after)) ≡ with_id job.id (ids_of (before ++ after)))
        × Distinct (before ++ after)
  Distinct-middle [] after job h = (h.0, refl, h.1)
  Distinct-middle (x ∷ before) after job h =
      let (fresh, split, apart) = Distinct-middle before after job h.1 in
      let (away, other) =
        not_in_with job.id x.id (ids_of (before ++ after))
          (sym (ap (λ (ids : Ids). ids x.id) split) ∙ h.0) in
      (
        other ∙ fresh,
        ap (with_id x.id) split ∙ with_id_comm x.id job.id (ids_of (before ++ after)),
        (away, apart),
      )

-- The tasks in another order have the same ids, and are as distinct.
module _ {W D S : Type 0} where
  head_equal :
      {a b : Job W D S} (l : List (Job W D S)) → a ≡ b → Distinct (a ∷ l) → Distinct (b ∷ l)
  head_equal l e h = subst (λ x. Distinct (x ∷ l)) e h

  swap-Distinct :
      (a b : Job W D S) (l : List (Job W D S)) → Distinct (a ∷ b ∷ l) → Distinct (b ∷ a ∷ l)
  swap-Distinct a b l h =
      let (away, other) = not_in_with b.id a.id (ids_of l) h.0 in (other ∙ h.1.0, (away, h.1.1))

  pub ids_of-perm : {l₁ l₂ : List (Job W D S)} → Permᴰ l₁ l₂ → ids_of l₁ ≡ ids_of l₂
  ids_of-perm Permᴰ.nil = refl
  ids_of-perm (Permᴰ.cons {a = a} {b = b} {l₁ = l₁} {l₂ = l₂} e d) =
      ap (with_id a.id) (ids_of-perm d) ∙ ap (λ (x : Job W D S). with_id x.id (ids_of l₂)) e
  ids_of-perm (Permᴰ.swap {a = a} {b = b} {a' = a'} {b' = b'} {l = l} e₁ e₂) =
      with_id_comm a.id b.id (ids_of l)
      ∙ ap₂ (λ (x y : Job W D S). with_id x.id (with_id y.id (ids_of l))) e₂ e₁
  ids_of-perm (Permᴰ.trans d₁ d₂) = ids_of-perm d₁ ∙ ids_of-perm d₂

  pub Distinct-perm : {l₁ l₂ : List (Job W D S)} → Permᴰ l₁ l₂ → Distinct l₁ → Distinct l₂
  Distinct-perm Permᴰ.nil h = h
  Distinct-perm (Permᴰ.cons {a = a} {b = b} {l₁ = l₁} {l₂ = l₂} e d) h =
      head_equal l₂ e
        (sym (ap (λ (ids : Ids). ids a.id) (ids_of-perm d)) ∙ h.0, Distinct-perm d h.1)
  Distinct-perm (Permᴰ.swap {a = a} {b = b} {a' = a'} {b' = b'} {l = l} e₁ e₂) h =
      subst (λ x. Distinct (x ∷ b' ∷ l)) e₂
        (subst (λ y. Distinct (b ∷ y ∷ l)) e₁ (swap-Distinct a b l h))
  Distinct-perm (Permᴰ.trans d₁ d₂) h = Distinct-perm d₂ (Distinct-perm d₁ h)

  pub All-perm :
      (P : Job W D S → Type 0) {l₁ l₂ : List (Job W D S)} → Permᴰ l₁ l₂ → All P l₁ → All P l₂
  All-perm P Permᴰ.nil h = h
  All-perm P (Permᴰ.cons e d) h = (subst P e h.0, All-perm P d h.1)
  All-perm P (Permᴰ.swap e₁ e₂) h = (subst P e₂ h.1.0, (subst P e₁ h.0, h.1.1))
  All-perm P (Permᴰ.trans d₁ d₂) h = All-perm P d₂ (All-perm P d₁ h)
