-- ===== src/Db/Open/Examples.antt =====
-- internal/db/db.go: runs of Open.
use stackd.Base.{◌≡◌, refl, true, false, none, some, bytes, has_prefix, str_eq, if◌then◌else◌}
use stackd.Db.Rebind.{sqlite}
use stackd.Db.Open.{Up, no_change, dirty, Drivers, no_ping, invalid_url, scheme_of, open_database}
use stackd.Db.Open.Laws.{OpenOutcome, open_database-OpenOutcome}

-- Migrations that a crash left dirty and that go through once forced.
abbrev crashed : Drivers
crashed = record {
  open_source = λ v source. true;
  set_journal = λ source. true;
  ping = λ source. true;
  new_migrate = λ url. true;
  up = λ forced. if forced then Up.done else dirty;
  force = true;
}

abbrev silent : Drivers
silent = record {
  open_source = λ v source. true;
  set_journal = λ source. true;
  ping = λ source. false;
  new_migrate = λ url. true;
  up = λ forced. no_change;
  force = true;
}

forced : (open_database crashed sqlite (bytes "postgresql://db/stackd")).error ≡ none
unfolding open_database scheme_of has_prefix str_eq
forced = refl

unanswered : (open_database silent sqlite (bytes "sqlite:///data/stackd.db")).error ≡ some no_ping
unfolding open_database scheme_of has_prefix str_eq
unanswered = refl

no_scheme : (open_database crashed sqlite (bytes "stackd.db")).error ≡ some invalid_url
unfolding open_database scheme_of has_prefix
no_scheme = refl

open_database-OpenOutcome_example :
    OpenOutcome crashed (open_database crashed sqlite (bytes "sqlite://stackd.db"))
open_database-OpenOutcome_example =
    open_database-OpenOutcome crashed sqlite (bytes "sqlite://stackd.db")
