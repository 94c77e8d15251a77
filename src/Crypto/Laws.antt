-- ===== src/Crypto/Laws.antt =====
-- internal/crypto/crypto.go: what was encrypted is decrypted.
use stackd.Base.{
  ℕ, ◌≡◌, refl, false, sym, ap, ◌∙◌, inl, inr, Option-cases, Option, some, ◌++◌, arith, length,
  drop, ltb, take-append, drop-append, length-append, Bytes,
}
use stackd.Crypto.{Aead, Library, encrypt, open_sealed, decrypt}

-- What the cipher and base64 promise: under one key, what was sealed with a nonce is opened with it,
-- what was encoded is decoded, and the random bytes are as many as asked for.
pub record IsLawful (lib : Library) (random : ℕ → Option Bytes) : Type 0 where
  pub opened :
      (key : Bytes) (gcm : Aead) (nonce plaintext : Bytes)
      → lib.new_gcm key ≡ some gcm
      → length nonce ≡ gcm.nonce_size
      → gcm.unseal nonce (gcm.seal nonce plaintext) ≡ some plaintext
  pub decoded : (s : Bytes) → lib.decode (lib.encode s) ≡ some s
  pub filled : (n : ℕ) (s : Bytes) → random n ≡ some s → length s ≡ n

module _ (lib : Library) (random : ℕ → Option Bytes) (laws : IsLawful lib random) where
  open_sealed-append :
      (gcm : Aead) (nonce sealed : Bytes)
      → length nonce ≡ gcm.nonce_size
      → open_sealed lib gcm (nonce ++ sealed) ≡ gcm.unseal nonce sealed
  unfolding open_sealed
  open_sealed-append gcm nonce sealed e =
      let long : ltb (length (nonce ++ sealed)) gcm.nonce_size ≡ false =
        ground (arith, length-append nonce sealed) in
      rw (long, open_sealed)
        (rw (← e) (
          ap (λ n. gcm.unseal n (drop (length nonce) (nonce ++ sealed))) (take-append nonce sealed)
          ∙ ap (gcm.unseal nonce) (drop-append nonce sealed)))

  decrypt-eq :
      (key ciphertext sealed : Bytes) (gcm : Aead)
      → lib.decode ciphertext ≡ some sealed
      → lib.new_gcm key ≡ some gcm
      → decrypt lib key ciphertext ≡ open_sealed lib gcm sealed
  unfolding decrypt
  decrypt-eq key ciphertext sealed gcm d e = rw (d, e, decrypt) refl

  -- A text that was encrypted under a key is decrypted under that key, where the cipher, base64 and
  -- the random bytes are as documented.
  pub decrypt-encrypt :
      (key plaintext : Bytes) {ciphertext : Bytes}
      → encrypt lib random key plaintext ≡ some ciphertext
      → decrypt lib key ciphertext ≡ some plaintext
  unfolding encrypt
  decrypt-encrypt key plaintext {ciphertext} h = elim (Option-cases (lib.new_gcm key)) [
    | inl e ↦ ground arith
    | inr (gcm, e) ↦ elim (Option-cases (random gcm.nonce_size)) [
      | inl f ↦ ground arith
      | inr (nonce, f) ↦
          let q : lib.encode (nonce ++ gcm.seal nonce plaintext) ≡ ciphertext = ground arith in
          let d = laws.decoded (nonce ++ gcm.seal nonce plaintext) in
          let size = laws.filled gcm.nonce_size nonce f in
          let d' : lib.decode ciphertext ≡ some (nonce ++ gcm.seal nonce plaintext) =
            ap lib.decode (sym q) ∙ d in
          decrypt-eq key ciphertext _ gcm d' e
          ∙ open_sealed-append gcm nonce (gcm.seal nonce plaintext) size
          ∙ laws.opened key gcm nonce plaintext e size
    ]
  ]
