-- ===== src/Server/Routes/Examples.antt =====
-- Tests of New.
use stackd.Base.{◌≡◌, refl, ◌*◌, bytes, text, [], pos, atoi}
use stackd.Schedule.{second}
use stackd.Server.Limiter.{new_rate_limiter}
use stackd.Server.Routes.{join_host_port, new_server}

with_port :
    new_server (bytes "0.0.0.0") (bytes "8080") []
    ≡ (bytes "0.0.0.0:8080", new_rate_limiter (pos (5 * second)))
unfolding new_server atoi text
with_port = refl

ipv6 : join_host_port (bytes "::1") (bytes "80") ≡ bytes "[::1]:80"
ipv6 = refl
