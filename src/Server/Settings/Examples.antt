-- ===== src/Server/Settings/Examples.antt =====
-- Tests of the general settings.
use stackd.Base.{refl, some, true, false, [], ◌∷◌, Bytes, bytes, text, Option}
use stackd.Db.Settings.{set_setting}
use stackd.Server.Settings.{
  Live, SettingsRequest, updates, write_all, store_updates, handle_update_general_settings,
}
use stackd.Server.Settings.Laws.{Agrees, only_token_and_interval, update-Agrees}

abbrev key : Bytes
key = bytes "dashboard_token"

abbrev live : Live
live = record {
  db = record {
    repos = [];
    ssh_keys = [];
    settings =
        record { key = key; value = some (bytes "old"); sensitive = 1; updated_at = bytes "t0" }
        ∷ [];
    faults = [];
  };
  token = bytes "old";
}

abbrev encrypt : Bytes → Option Bytes
encrypt s = some (bytes "enc:")

abbrev change : SettingsRequest
change = only_token_and_interval (bytes "new") 300

update-Agrees_example :
    Agrees (handle_update_general_settings encrypt (bytes "t1") (some change) live).1
unfolding handle_update_general_settings store_updates write_all updates set_setting text
update-Agrees_example = update-Agrees encrypt (bytes "t1") (some change) live refl refl

-- The second statement of the database fails.
abbrev faulty : Live
faulty = record live { db = record live.db { faults = false ∷ true ∷ [] } }
