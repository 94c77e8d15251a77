-- ===== src/Server/Origin/Examples.antt =====
-- Tests of the origin's check.
use stackd.Base.{◌≡◌, ◌↔◌, refl, true, false, Option, some, Bytes, bytes, text, [], drop}
use stackd.Server.Origin.{check_origin}
use stackd.Server.Origin.Laws.{IsAccepted, check_origin_iff}

abbrev host_of : Bytes → Option Bytes
host_of s = some (drop 8 s)

same : check_origin host_of (bytes "https://Dash.io") (bytes "dash.io") [] ≡ true
unfolding check_origin text
same = refl

other : check_origin host_of (bytes "https://evil.io") (bytes "dash.io") [] ≡ false
unfolding check_origin text
other = refl

listed :
    check_origin host_of
      (bytes "https://a.io")
      (bytes "dash.io")
      (bytes "https://b.io, HTTPS://A.io")
    ≡ true
unfolding check_origin text
listed = refl

check_origin_iff_example :
    (check_origin host_of (bytes "https://a.io") (bytes "dash.io") [] ≡ true)
    ↔ IsAccepted host_of (bytes "https://a.io") (bytes "dash.io") []
check_origin_iff_example = check_origin_iff host_of (bytes "https://a.io") (bytes "dash.io") []
