-- ===== src/Server/Limiter/Examples.antt =====
-- Tests of the rate limiter.
use stackd.Base.{◌≡◌, refl, List, [], ◌∷◌, Bytes, bytes, text, ℤ, pos, ◌+ℤ◌, lookup, insert}
use stackd.Server.Limiter.{allow}
use stackd.Server.Limiter.Laws.{accepted, IsSpaced, accepted-IsSpaced}

abbrev calls : List (Bytes × ℤ)
calls = (bytes "a", pos 75) ∷ (bytes "b", pos 50) ∷ (bytes "a", pos 40) ∷ (bytes "a", pos 10) ∷ []

two_accepted : accepted (pos 60) (bytes "a") calls ≡ pos 75 ∷ pos 10 ∷ []
unfolding accepted allow lookup insert ◌+ℤ◌ text
two_accepted = refl

accepted-IsSpaced_example : IsSpaced (pos 60) (accepted (pos 60) (bytes "a") calls)
accepted-IsSpaced_example = accepted-IsSpaced (pos 60) (bytes "a") calls
