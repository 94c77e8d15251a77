-- ===== src/Db/Settings/Laws.antt =====
-- internal/db/settings_store.go: what is read after a write, and that secrets stay masked.
use stackd.Base.{
  ◌<◌, ◌==◌, ◌≡◌, ◌⊎◌, inl, inr, not, false, Bool, Bool-cases, Option-cases, true, Option, none,
  some, List, [], ◌∷◌, arith, if◌then◌else◌, Bytes, str_eq, str_eq_iff, Assoc, insert, lookup,
  lookup-insert, All,
}
use stackd.Db.{failed, ok, SettingRow, Database, fails, of_null}
use stackd.Db.Repos.{first}
use stackd.Db.Settings.{
  get_setting, set_setting, is_sensitive_key, upsert, read_settings, get_all_settings,
}

abbrev has_key : Bytes → SettingRow → Bool
has_key key r = str_eq r.key key

-- The value that a key has in the table.
abbrev pub stored : Bytes → List SettingRow → Option Bytes
stored key rows = elim (first (has_key key) rows) [ none ↦ none | some r ↦ some (of_null r.value) ]

pub stored-upsert :
    (now key value j : Bytes) (rows : List SettingRow)
    → stored j (upsert now key value rows) ≡ (if str_eq key j then some value else stored j rows)
unfolding upsert
stored-upsert now key value j [] = ground (arith)
stored-upsert now key value j (r ∷ rows) = ground (
  arith,
  str_eq_iff r.key key,
  str_eq_iff key j,
  str_eq_iff r.key j,
  stored-upsert now key value j rows,
)

-- A row under one of the secret keys is marked sensitive.
abbrev pub IsMasked : SettingRow → Type 0
IsMasked r = is_sensitive_key r.key ≡ true → 0 < r.sensitive

upsert-IsMasked :
    (now key value : Bytes) (rows : List SettingRow)
    → All IsMasked rows
    → All IsMasked (upsert now key value rows)
unfolding upsert
upsert-IsMasked now key value [] h = ((λ e. ground arith), tt)
upsert-IsMasked now key value (r ∷ rows) (p, h) =
    ground (arith, upsert-IsMasked now key value rows h)

-- Reading all settings never shows a secret.
read_settings-secret :
    (key : Bytes) (acc : Assoc Bytes) (rows : List SettingRow) {v : Bytes}
    → is_sensitive_key key ≡ true
    → All IsMasked rows
    → ((w : Bytes) → lookup key acc ≡ some w → w ≡ [])
    → lookup key (read_settings acc rows) ≡ some v
    → v ≡ []
unfolding read_settings
read_settings-secret key acc [] s h f e = f _ e
read_settings-secret key acc (r ∷ rows) s (p, h) f e =
    read_settings-secret key (insert r.key (if r.sensitive == 0 then of_null r.value else []) acc)
      rows s h (λ w q. ground (arith, f w, str_eq_iff r.key key, rw lookup-insert at q)) e

-- SetSetting stores the value under its key and changes no other, or fails and changes nothing.
pub stored-set_setting :
    (now key value j : Bytes) (db : Database)
    → ((set_setting now key value db).0 ≡ none)
        × (stored j (set_setting now key value db).1.settings
            ≡ (if str_eq key j then some value else stored j db.settings))
      ⊎ ((set_setting now key value db).0 ≡ some failed)
        × ((set_setting now key value db).1.settings ≡ db.settings)
unfolding set_setting
stored-set_setting now key value j db = elim (Bool-cases (fails db)) [
  | inl e ↦ inr (ground arith, ground arith)
  | inr e ↦ inl (ground arith, rw e (stored-upsert now key value j db.settings))
]

-- SetSetting keeps the secret keys marked as sensitive.
pub set_setting-IsMasked :
    (now key value : Bytes) (db : Database)
    → All IsMasked db.settings
    → All IsMasked (set_setting now key value db).1.settings
unfolding set_setting
set_setting-IsMasked now key value db h = elim (Bool-cases (fails db)) [
  | inl e ↦ rw e h
  | inr e ↦ rw e (upsert-IsMasked now key value db.settings h)
]

-- In a table whose rows under secret keys are marked sensitive, GetAllSettings returns no value but
-- "" for such a key.
pub get_all_settings-secret :
    (db : Database) (key : Bytes) {m : Assoc Bytes} {v : Bytes}
    → All IsMasked db.settings
    → is_sensitive_key key ≡ true
    → (get_all_settings db).0 ≡ ok m
    → lookup key m ≡ some v
    → v ≡ []
unfolding get_all_settings lookup
get_all_settings-secret db key {m} {v} h s e l =
    read_settings-secret key [] db.settings s h (λ w q. ground arith) (ground arith)

-- GetSetting of a key gives its stored value, unless the statement fails or there is none.
pub stored-get_setting :
    (key : Bytes) (db : Database) {v : Bytes} {b : Bool}
    → (get_setting key db).0 ≡ ok (v, b)
    → stored key db.settings ≡ some v
unfolding get_setting
stored-get_setting key db h = elim (Bool-cases (fails db)) [
  | inl e ↦ ground arith
  | inr e ↦ elim (Option-cases (first (has_key key) db.settings)) [
    | inl n ↦ ground arith
    | inr (r, n) ↦ ground arith
  ]
]

-- A stored value is what GetSetting gives, unless the statement fails.
pub get_setting-stored :
    (key : Bytes) (db : Database) {v : Bytes}
    → fails db ≡ false
    → stored key db.settings ≡ some v
    → (b : Bool) × ((get_setting key db).0 ≡ ok (v, b))
unfolding get_setting
get_setting-stored key db f h = elim (Option-cases (first (has_key key) db.settings)) [
  | inl n ↦ ground arith
  | inr (r, n) ↦ (not (r.sensitive == 0), ground arith)
]
