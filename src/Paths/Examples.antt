-- ===== src/Paths/Examples.antt =====
-- Tests of the paths.
use stackd.Base.{bytes, ◌≡◌, refl, some, text}
use stackd.Paths.{clean, rel}

cleaned : clean (bytes "/a//b/./../c/") ≡ bytes "/a/c"
unfolding clean text
cleaned = refl

escaping : clean (bytes "../a/../../b") ≡ bytes "../../b"
unfolding clean text
escaping = refl

below : rel (bytes "/var/lib") (bytes "/var/lib/x") ≡ some (bytes "x")
unfolding rel text
below = refl

above : rel (bytes "/var/lib") (bytes "/var/x") ≡ some (bytes "../x")
unfolding rel text
above = refl
