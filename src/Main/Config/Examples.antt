-- ===== src/Main/Config/Examples.antt =====
-- Tests of the default interval.
use stackd.Base.{◌≡◌, refl, none, false, [], bytes, decimal}
use stackd.Db.{Database, fails}
use stackd.Db.Settings.{set_setting}

abbrev db : Database
db = record { repos = []; ssh_keys = []; settings = []; faults = [] }

written : (set_setting (bytes "now") (bytes "default_sync_interval") (decimal 300) db).0 ≡ none
unfolding set_setting
written = refl

readable :
    fails (set_setting (bytes "now") (bytes "default_sync_interval") (decimal 300) db).1 ≡ false
unfolding set_setting
readable = refl
