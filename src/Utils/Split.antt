-- ===== src/Utils/Split.antt =====
-- What SliceSplit of app/utils/utils.go returns: windows that cover the slice, or no result at all.
use vsphere_facade.Prelude.{
  ℕ, zero, suc, ◌+◌, ◌-◌, ◌≤◌, ◌<◌, ◌≡◌, refl, sym, ap, ◌∙◌, inl, inr, some, none, List, [], ◌∷◌,
  ◌++◌, arith, length, take, drop, take-append-drop, length-take, length-drop, ltb, ltb→lt, lt→ltb,
  Bool-cases, All, Option,
}
use vsphere_facade.Utils.{slice_split, split_from, window_end}

module _ {ℓ} {A : Type ℓ} where
  abbrev pub concat : List (List A) → List A
  concat [] = []
  concat (w ∷ ws) = w ++ concat ws

  drop-nil : (n : ℕ) → drop {A = A} n [] ≡ []
  drop-nil zero = refl
  drop-nil (suc n) = refl

  drop-drop : (m n : ℕ) (xs : List A) → drop m (drop n xs) ≡ drop (n + m) xs
  drop-drop m zero xs = let e : m ≡ zero + m = omega arith in ap (λ k. drop k xs) e
  drop-drop m (suc n) [] = drop-nil m ∙ sym (drop-nil (suc n + m))
  drop-drop m (suc n) (x ∷ xs) =
      let e : suc (n + m) ≡ suc n + m = omega arith in
      drop-drop m n xs ∙ ap (λ k. drop k (x ∷ xs)) e

  drop-all : (n : ℕ) (xs : List A) → length xs ≤ n → drop n xs ≡ []
  drop-all zero [] h = refl
  drop-all zero (x ∷ xs) h = absurd (omega arith)
  drop-all (suc n) [] h = refl
  drop-all (suc n) (x ∷ xs) h = drop-all n xs (omega arith)

  -- A window that is not empty and no longer than `len`.
  abbrev pub Window : ℕ → List A → Type 0
  Window len w = (0 < length w) × (length w ≤ len)

  -- What a complete split from the index `s` is.
  abbrev Covers : List A → ℕ → ℕ → Option (List (List A)) → Type ℓ
  Covers src len s r =
      (ws : List (List A)) × (r ≡ some ws) × (concat ws ≡ drop s src) × All (Window len) ws

  -- One window and the rest.
  window-concat :
      (src : List A) (s e : ℕ) → s ≤ e → take (e - s) (drop s src) ++ drop e src ≡ drop s src
  window-concat src s e h =
      let whole : e ≡ s + (e - s) = omega arith in
      ap (λ k. take (e - s) (drop s src) ++ drop k src) whole
      ∙ ap (λ r. take (e - s) (drop s src) ++ r) (sym (drop-drop (e - s) s src))
      ∙ take-append-drop (e - s) (drop s src)

  slice-Window :
      (src : List A) (len s e : ℕ)
      → s < e
      → e ≤ length src
      → e ≤ s + len
      → Window len (take (e - s) (drop s src))
  slice-Window src len s e h k l = (
    omega (arith, length-take (e - s) (drop s src), length-drop s src),
    omega (arith, length-take (e - s) (drop s src), length-drop s src),
  )

  window_end_bounds :
      (src : List A) (len s : ℕ)
      → 0 < len
      → s < length src
      → let e = window_end src len s in (s < e) × (e ≤ length src) × (e ≤ s + len)
  unfolding window_end
  window_end_bounds src len s h k = ground arith

  add_window :
      (fuel : ℕ) (src : List A) (len s : ℕ)
      → 0 < len
      → s < length src
      → Covers src len (window_end src len s) (split_from fuel src len (window_end src len s))
      → Covers src len s (split_from (suc fuel) src len s)
  unfolding split_from
  add_window fuel src len s h k (ws, made, covers, sized) =
      let e = window_end src len s in
      let (below, within, short) = window_end_bounds src len s h k in
      (
        take (e - s) (drop s src) ∷ ws,
        rw (lt→ltb s (length src) k, made),
        ap (λ r. take (e - s) (drop s src) ++ r) covers ∙ window-concat src s e (omega arith),
        (slice-Window src len s e below within short, sized),
      )

  split_from-Covers :
      (fuel : ℕ) (src : List A) (len s : ℕ)
      → 0 < len
      → s ≤ length src
      → length src < fuel + s
      → Covers src len s (split_from fuel src len s)
  split_from-Covers zero src len s h k f = absurd (omega arith)
  split_from-Covers (suc fuel) src len s h k f = elim (Bool-cases (ltb s (length src))) [
    | inr done ↦ ([], unfold split_from in rw done, sym (drop-all s src (ground arith)), tt)
    | inl more ↦
        let (below, within, short) = window_end_bounds src len s h (ltb→lt _ _ more) in
        add_window fuel src len s h (ltb→lt _ _ more)
          (split_from-Covers fuel src len (window_end src len s) h within (omega arith))
  ]

  -- A split into windows of a positive length ends within one round more than the slice is long.
  -- Its windows, one after the other, are the slice; none is empty or longer than asked.
  pub slice_split-covers :
      (src : List A) (len : ℕ)
      → 0 < len
      → (ws : List (List A)) × (slice_split (suc (length src)) src len ≡ some ws)
        × (concat ws ≡ src)
        × All (Window len) ws
  unfolding slice_split
  slice_split-covers src len h =
      split_from-Covers (suc (length src)) src len 0 h (omega arith) (omega arith)

  stays : (src : List A) (s : ℕ) → s < length src → window_end src 0 s ≡ s
  unfolding window_end
  stays src s h = ground arith

  split_from-zero_length :
      (fuel : ℕ) (src : List A) (s : ℕ) → s < length src → split_from fuel src 0 s ≡ none
  unfolding split_from
  split_from-zero_length zero src s h = refl
  split_from-zero_length (suc fuel) src s h =
      rw (lt→ltb s (length src) h, stays src s h, split_from-zero_length fuel src s h)

  -- A split of a slice that is not empty into windows of length 0 never ends, whatever the fuel.
  pub slice_split-zero_length :
      (fuel : ℕ) (src : List A) → 0 < length src → slice_split fuel src 0 ≡ none
  unfolding slice_split
  slice_split-zero_length fuel src h = split_from-zero_length fuel src 0 h
