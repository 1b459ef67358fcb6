-- ===== src/Security/Aes.antt =====
-- app/utils/aes.go: AES in CBC mode with PKCS5 padding, over texts in base64.
-- A Go string and a []byte are the list of their bytes. The cipher and base64 are parameters.
pub mod Padding
pub mod RoundTrip
use vsphere_facade.Prelude.{
  Bool, List, Outcome, [], deref, get_elem?, if◌then◌else◌, length, ltb, nat_eq, not, ok, panic,
  replicate, take, ℕ, ◌%◌, ◌++◌, ◌-◌, ◌==◌, ◌>>=◌, ◌||◌, ◌∷◌, ◌≡◌,
}

abbrev pub Bytes : Type 0
Bytes = List ℕ

-- What the program takes of crypto/aes, crypto/cipher and encoding/base64: CBC under the key and
-- the start vector of the program keeps the length and is undone, and so is base64.
pub record Cipher : Type 0 where
  pub encrypt_blocks : Bytes → Bytes
  pub decrypt_blocks : Bytes → Bytes
  pub base64_encode : Bytes → Bytes
  pub base64_decode : Bytes → Bytes
  pub length-encrypt_blocks : (b : Bytes) → length (encrypt_blocks b) ≡ length b
  pub decrypt-encrypt : (b : Bytes) → length b % 16 ≡ 0 → decrypt_blocks (encrypt_blocks b) ≡ b
  pub decode-encode : (b : Bytes) → base64_decode (base64_encode b) ≡ b

-- []byte("480055b0a0c4d10c")
abbrev pub key : Bytes
key = 52 ∷ 56 ∷ 48 ∷ 48 ∷ 53 ∷ 53 ∷ 98 ∷ 48 ∷ 97 ∷ 48 ∷ 99 ∷ 52 ∷ 100 ∷ 49 ∷ 48 ∷ 99 ∷ []

-- aes.NewCipher refuses a key that has not 16, 24 or 32 bytes.
abbrev pub key_is_valid : Bytes → Bool
key_is_valid k = length k == 16 || length k == 24 || length k == 32

-- block.BlockSize()
abbrev pub block_size : ℕ
block_size = 16

-- PKCS5Padding; byte(padding) wraps at 256.
unfoldable pub pkcs5_padding : Bytes → ℕ → Bytes
pkcs5_padding src block =
    let padding = block - length src % block in src ++ replicate padding (padding % 256)

-- PKCS5UnPadding: the index and the slice expression panic out of range.
unfoldable pub pkcs5_un_padding : Bytes → Outcome (Unit {0}) Bytes
pkcs5_un_padding [] = panic
pkcs5_un_padding (b ∷ rest) =
    let src = b ∷ rest in
    deref (get_elem? src (length src - 1)) >>= λ unpadding.
    if ltb (length src) unpadding then panic else ok (take (length src - unpadding) src)

module _ (c : Cipher) where
  unfoldable pub aes_encrypt : Bytes → Bytes
  aes_encrypt plaintext =
      if not (key_is_valid key)
      then []
      else c.base64_encode (c.encrypt_blocks (pkcs5_padding plaintext block_size))

  -- A text that is too short, or is not whole blocks, is logged and gives the empty text.
  unfoldable pub aes_decrypt : Bytes → Outcome (Unit {0}) Bytes
  aes_decrypt ciphertext =
      if not (key_is_valid key)
      then ok []
      else let b = c.base64_decode ciphertext in
        if ltb (length b) block_size
        then ok []
        else if not (length b % block_size == 0)
        then ok []
        else pkcs5_un_padding (c.decrypt_blocks b)
