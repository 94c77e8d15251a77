-- ===== src/Git/Redact/Examples.antt =====
-- Tests of the redaction.
use stackd.Base.{arith, ◌++◌, ◌∷◌, bytes, text, ◌≡◌, refl}
use stackd.Git.Redact.{mask, redact, credential_len, userinfo_len}
use stackd.Git.Redact.Userinfo.{redact-userinfo}
use stackd.Git.Redact.Laws.{IsRedacted, redact-IsRedacted}

two_urls :
    redact (bytes "clone https://u:tok@h/x and ssh://k@h, not a://b/c@d")
    ≡ bytes "clone https://***@h/x and ssh://***@h, not a://b/c@d"
unfolding redact credential_len userinfo_len text
two_urls = refl

redact-IsRedacted_example : IsRedacted (redact (bytes "clone https://u:tok@h/x"))
redact-IsRedacted_example = redact-IsRedacted (bytes "clone https://u:tok@h/x")

redact-userinfo_example :
    redact (bytes "://" ++ (bytes "u:tok" ++ b'@' ∷ bytes "h/x")) ≡ mask ++ redact (bytes "h/x")
redact-userinfo_example = redact-userinfo (bytes "u:tok") (bytes "h/x") (ground arith)
