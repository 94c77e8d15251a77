-- ===== src/Crypto.antt =====
-- internal/crypto/crypto.go. AES-GCM, base64, HKDF and the random bytes are parameters.
pub mod Laws
mod Examples
use stackd.Base.{
  ℕ, Bool, true, false, Option, none, some, List, ◌++◌, if◌then◌else◌, length, take, drop, ltb,
  Bytes,
}

-- cipher.AEAD, made of a key: `seal` gets the nonce and the plaintext, `unseal`, which is Open, the nonce and the
-- ciphertext.
pub record Aead : Type 0 where
  pub nonce_size : ℕ
  pub seal : Bytes → Bytes → Bytes
  pub unseal : Bytes → Bytes → Option Bytes

-- What the functions call: aes.NewCipher with cipher.NewGCM, base64.StdEncoding, and HKDF-SHA256 of a
-- secret with the info "stackd-v1" and no salt.
pub record Library : Type 0 where
  pub new_gcm : Bytes → Option Aead
  pub encode : Bytes → Bytes
  pub decode : Bytes → Option Bytes
  pub hkdf : Bytes → ℕ → Option Bytes

module _ (lib : Library) where
  -- DeriveKey
  unfoldable pub derive_key : Bytes → Option Bytes
  derive_key secret = lib.hkdf secret 32

  -- Encrypt; `random` gives the bytes of a nonce of some length.
  unfoldable pub encrypt : (random : ℕ → Option Bytes) (key plaintext : Bytes) → Option Bytes
  encrypt random key plaintext = elim (lib.new_gcm key) [
    | none ↦ none
    | some gcm ↦ elim (random gcm.nonce_size) [
      | none ↦ none
      | some nonce ↦ some (lib.encode (nonce ++ gcm.seal nonce plaintext))
    ]
  ]

  -- Decrypt from the cipher on.
  pub open_sealed : Aead → Bytes → Option Bytes
  open_sealed gcm sealed =
      if ltb (length sealed) gcm.nonce_size
      then none
      else gcm.unseal (take gcm.nonce_size sealed) (drop gcm.nonce_size sealed)

  -- Decrypt
  unfoldable pub decrypt : (key ciphertext : Bytes) → Option Bytes
  unfolding open_sealed
  decrypt key ciphertext = elim (lib.decode ciphertext) [
    | none ↦ none
    | some sealed ↦ elim (lib.new_gcm key) [ none ↦ none | some gcm ↦ open_sealed gcm sealed ]
  ]
