-- ===== src/Db/Settings/Examples.antt =====
-- Tests of the settings table.
use stackd.Base.{◌≡◌, refl, [], ◌∷◌, Bytes, bytes, text, All, lookup, insert, arith}
use stackd.Db.{Database}
use stackd.Db.Settings.{set_setting, get_all_settings, upsert, read_settings}
use stackd.Db.Settings.Laws.{IsMasked, get_all_settings-secret}

abbrev empty : Database
empty = record { repos = []; ssh_keys = []; settings = []; faults = [] }

abbrev key : Bytes
key = bytes "dashboard_token"

abbrev db : Database
db = (set_setting (bytes "t1") key (bytes "s3cret") empty).1

db-IsMasked : All IsMasked db.settings
unfolding set_setting upsert text
db-IsMasked = ((λ e. omega arith), tt)

get_all_settings-secret_example : bytes "" ≡ []
unfolding set_setting upsert read_settings get_all_settings lookup insert text
get_all_settings-secret_example =
    get_all_settings-secret db key {m = (key, []) ∷ []} {v = bytes ""} db-IsMasked refl refl refl
