-- ===== src/Security/Aes/Padding.antt =====
-- Padding and its removal, of app/utils/aes.go.
use vsphere_facade.Prelude.{
  [], ap, arith, get_elem?, length, length-append, length-replicate, not_lt→ltb, ok, refl,
  replicate, some, suc, take, zero, ℕ, ◌%◌, ◌++◌, ◌+◌, ◌-◌, ◌<◌, ◌∙◌, ◌∷◌, ◌≡◌, ◌≤◌,
}
use vsphere_facade.Security.Aes.{Bytes, pkcs5_padding, pkcs5_un_padding}

last-replicate :
    (src : Bytes) (n v : ℕ) → get_elem? (src ++ replicate (suc n) v) (length src + n) ≡ some v
last-replicate [] zero v = refl
last-replicate [] (suc n) v =
    let e : zero + suc n ≡ suc (zero + n) = omega arith in rw e (last-replicate [] n v)
last-replicate (b ∷ src) n v =
    let e : suc (length src) + n ≡ suc (length src + n) = omega arith in
    rw e (last-replicate src n v)

take-length : (src rest : Bytes) → take (length src) (src ++ rest) ≡ src
take-length [] rest = refl
take-length (b ∷ src) rest = ap (λ r. b ∷ r) (take-length src rest)

-- The result is whole blocks, and longer than the source by one block at most.
pub length-pkcs5_padding :
    (src : Bytes) (block : ℕ)
    → 0 < block
    → (length (pkcs5_padding src block) ≡ length src + (block - length src % block))
      × (length src % block < block)
unfolding pkcs5_padding
length-pkcs5_padding src block h = (
  omega (
    arith,
    length-append src (replicate (block - length src % block) ((block - length src % block) % 256)),
    length-replicate (block - length src % block) ((block - length src % block) % 256),
  ),
  omega arith,
)

un_padding_of_last :
    (x : Bytes) (v : ℕ)
    → get_elem? x (length x - 1) ≡ some v
    → v ≤ length x
    → pkcs5_un_padding x ≡ ok (take (length x - v) x)
unfolding pkcs5_un_padding
un_padding_of_last [] v h k = cc
un_padding_of_last (b ∷ rest) v h k = rw (h, not_lt→ltb v (length (b ∷ rest)) k)

-- Removing the padding of any source gives it back, for a block of at most 255 bytes.
pub un_padding-padding :
    (src : Bytes) (block : ℕ)
    → 0 < block
    → block < 256
    → pkcs5_un_padding (pkcs5_padding src block) ≡ ok src
un_padding-padding src block h k =
    let p : ℕ = block - length src % block in
    let q : ℕ = p - 1 in
    let whole : pkcs5_padding src block ≡ src ++ replicate (suc q) p =
      unfold pkcs5_padding in
      let count : p ≡ suc q = omega arith in
      let byte : p % 256 ≡ p = omega arith in rw byte (ap (λ i. src ++ replicate i p) count) in
    let size : length (src ++ replicate (suc q) p) ≡ length src + suc q =
      length-append src (replicate (suc q) p)
      ∙ ap (λ t. length src + t) (length-replicate (suc q) p) in
    let at_end : length src + suc q - 1 ≡ length src + q = omega arith in
    let front : length src + suc q - p ≡ length src = omega arith in
    rw whole (
      un_padding_of_last (src ++ replicate (suc q) p) p (rw (size, at_end) (last-replicate src q p))
        (omega (arith, size))
      ∙ ap ok (rw (size, front) (take-length src (replicate (suc q) p))))
