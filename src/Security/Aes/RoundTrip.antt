-- ===== src/Security/Aes/RoundTrip.antt =====
-- Encryption and decryption, of app/utils/aes.go.
use vsphere_facade.Prelude.{[], arith, length, lt→ltb, not_lt→ltb, ok, ◌%◌, ◌<◌, ◌∙◌, ◌≡◌, ◌≤◌}
use vsphere_facade.Security.Aes.{
  Bytes, Cipher, pkcs5_padding, pkcs5_un_padding, aes_encrypt, aes_decrypt,
}
use vsphere_facade.Security.Aes.Padding.{length-pkcs5_padding, un_padding-padding}

module _ (c : Cipher) where
  -- The padded text is whole blocks, one at least.
  padded :
      (plaintext : Bytes) → let n = length (pkcs5_padding plaintext 16) in (n % 16 ≡ 0) × (16 ≤ n)
  padded plaintext = (
    omega (arith, length-pkcs5_padding plaintext 16 (omega arith)),
    omega (arith, length-pkcs5_padding plaintext 16 (omega arith)),
  )

  decrypt_of_blocks :
      (t b : Bytes)
      → c.base64_decode t ≡ b
      → length b % 16 ≡ 0
      → 16 ≤ length b
      → aes_decrypt c t ≡ pkcs5_un_padding (c.decrypt_blocks b)
  unfolding aes_decrypt
  decrypt_of_blocks t b e whole enough = rw (e, not_lt→ltb 16 (length b) enough, whole)

  -- Decrypting what was encrypted gives the text back, whatever the text is.
  pub aes_decrypt-encrypt :
      (plaintext : Bytes) → aes_decrypt c (aes_encrypt c plaintext) ≡ ok plaintext
  unfolding aes_encrypt
  aes_decrypt-encrypt plaintext =
      let x : Bytes = pkcs5_padding plaintext 16 in
      let size : length (c.encrypt_blocks x) ≡ length x = c.length-encrypt_blocks x in
      decrypt_of_blocks (c.base64_encode (c.encrypt_blocks x)) (c.encrypt_blocks x)
        (c.decode-encode (c.encrypt_blocks x)) (rw size (padded plaintext).0)
        (rw size (padded plaintext).1)
      ∙ rw (c.decrypt-encrypt x (padded plaintext).0)
          (un_padding-padding plaintext 16 (omega arith) (omega arith))

  -- What decodes to less than one block gives the empty text.
  pub aes_decrypt_short : (t : Bytes) → length (c.base64_decode t) < 16 → aes_decrypt c t ≡ ok []
  unfolding aes_decrypt
  aes_decrypt_short t h = rw (lt→ltb _ _ h)
