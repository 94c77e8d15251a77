-- ===== src/Crypto/Examples.antt =====
-- Tests of the round trip with a cipher that leaves the text as it is.
use stackd.Base.{
  ℕ, zero, suc, ◌≡◌, refl, Option, none, some, [], ◌∷◌, length, Bytes, bytes, ap, subst,
}
use stackd.Crypto.{Aead, Library, encrypt, open_sealed, decrypt}
use stackd.Crypto.Laws.{IsLawful, decrypt-encrypt}

abbrev zeros : ℕ → Bytes
zeros zero = []
zeros (suc n) = 0 ∷ zeros n

length-zeros : (n : ℕ) → length (zeros n) ≡ n
length-zeros zero = refl
length-zeros (suc n) = ap suc (length-zeros n)

abbrev gcm : Aead
gcm = record { nonce_size = 2; seal = λ nonce s. s; unseal = λ nonce s. some s }

abbrev library : Library
library = record {
  new_gcm = λ key. some gcm;
  encode = λ s. s;
  decode = λ s. some s;
  hkdf = λ secret n. some secret;
}

abbrev random : ℕ → Option Bytes
random n = some (zeros n)

abbrev gcm_or_none : Option Aead → Aead
gcm_or_none none = gcm
gcm_or_none (some g) = g

abbrev text_or_none : Option Bytes → Bytes
text_or_none none = []
text_or_none (some s) = s

library-IsLawful : IsLawful library random
library-IsLawful = record {
  opened = λ key g nonce s e size.
      subst (λ a. a.unseal nonce (a.seal nonce s) ≡ some s) (ap gcm_or_none e) refl;
  decoded = λ s. refl;
  filled = λ n s e. subst (λ t. length t ≡ n) (ap text_or_none e) (length-zeros n);
}

sealed : encrypt library random (bytes "k") (bytes "hi") ≡ some (0 ∷ 0 ∷ bytes "hi")
unfolding encrypt
sealed = refl

too_short : decrypt library (bytes "k") (bytes "x") ≡ none
unfolding decrypt open_sealed
too_short = refl

decrypt-encrypt_example : decrypt library (bytes "k") (0 ∷ 0 ∷ bytes "hi") ≡ some (bytes "hi")
decrypt-encrypt_example =
    decrypt-encrypt library random library-IsLawful (bytes "k") (bytes "hi") sealed
