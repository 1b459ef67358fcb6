-- ===== src/Utils/Slices.antt =====
-- What `slice_contain` and the tests for nil of app/utils/utils.go decide.
use mathlib.Core.List.{Mem, mem-cons}
use mathlib.Core.Logic.Or
use vsphere_facade.Prelude.{
  ◌≡◌, refl, sym, true, false, not, Option, none, some, List, [], ◌∷◌, arith, ◌==◌, Eq, Bool-cases,
  inl, inr,
}
use vsphere_facade.Utils.{
  slice_contain, is_nil, nil_next, first_not_nil, is_all_nil, has_nil, no_nil, has_none_nil,
}

module _ {ℓ} {A : Type ℓ} ⦃e : Eq A⦄ where
  -- One more element is found, or what was found before.
  pub slice_contain-cons_false :
      (x a : A) (xs : List A)
      → slice_contain (x ∷ xs) a ≡ false
      → ((x == a) ≡ false) × (slice_contain xs a ≡ false)
  unfolding slice_contain
  slice_contain-cons_false x a xs h = ground arith

  pub mem_of_slice_contain : (xs : List A) (a : A) → slice_contain xs a ≡ true → Mem a xs
  unfolding slice_contain
  mem_of_slice_contain [] a h = cc
  mem_of_slice_contain (x ∷ xs) a h = elim (Bool-cases (x == a)) [
    | inl same ↦ mem-cons.1 (Or.inl (sym ((e.beq_iff x a).0 same)))
    | inr other ↦ mem-cons.1 (Or.inr (mem_of_slice_contain xs a (ground arith)))
  ]

module _ {ℓ} {A : Type ℓ} where
  -- The four tests agree on every list: two are the negations of the other two.
  pub no_nil-not-has_nil : (l : List (Option A)) → no_nil l ≡ not (has_nil l)
  unfolding no_nil has_nil
  no_nil-not-has_nil [] = refl
  no_nil-not-has_nil (i ∷ l) = ground (arith, no_nil-not-has_nil l)

  pub has_none_nil-not-is_all_nil : (l : List (Option A)) → has_none_nil l ≡ not (is_all_nil l)
  unfolding has_none_nil is_all_nil
  has_none_nil-not-is_all_nil [] = refl
  has_none_nil-not-is_all_nil (i ∷ l) = ground (arith, has_none_nil-not-is_all_nil l)

  -- `nil_next` is nil exactly when every argument is, and otherwise skips nils only.
  pub nil_next-is_all_nil :
      (t : Option A) (others : List (Option A))
      → is_nil (nil_next t others) ≡ is_all_nil (t ∷ others)
  unfolding nil_next is_all_nil first_not_nil
  nil_next-is_all_nil (some a) others = refl
  nil_next-is_all_nil none [] = refl
  nil_next-is_all_nil none (some a ∷ others) = refl
  nil_next-is_all_nil none (none ∷ others) = nil_next-is_all_nil none others
