-- ===== src/Server/Settings/Laws.antt =====
-- internal/server/settings_handlers.go: what an update of the settings stores, and the live token.
use stackd.Base.{
  ℕ, zero, suc, ◌≡◌, ◌≢◌, ◌⊎◌, inl, inr, refl, ap, ◌∙◌, ◌<◌, Bool, Option-cases, true, false,
  Option, none, some, List, [], ◌∷◌, ◌++◌, if◌then◌else◌, arith, Bytes, bytes, str_eq, str_eq_refl,
  pos,
}
use stackd.Db.{Database}
use stackd.Db.Settings
use stackd.Db.Settings.Laws.{stored, stored-upsert, stored-set_setting}
use stackd.Server.Http.{halt, go, Response, json_error, message}
use stackd.Server.Settings.{
  Live, SettingsRequest, given, non_empty, encrypted, updates, write_all, store_updates,
  handle_update_general_settings,
}

-- The value of a key behind a list of updates.
pub override : Bytes → List (Bytes × Bytes) → Option Bytes → Option Bytes
override j [] o = o
override j ((k, v) ∷ us) o = override j us (if str_eq k j then some v else o)

override-append :
    (j : Bytes) (us vs : List (Bytes × Bytes)) (o : Option Bytes)
    → override j (us ++ vs) o ≡ override j vs (override j us o)
unfolding override
override-append j [] vs o = refl
override-append j ((k, v) ∷ us) vs o = override-append j us vs _

override-given :
    (j k : Bytes) (v o : Option Bytes)
    → override j (given k v) o ≡ (elim v [ none ↦ o | some w ↦ if str_eq k j then some w else o ])
unfolding override
override-given j k none o = refl
override-given j k (some w) o = refl

override-given_ne :
    (j k : Bytes) (v o : Option Bytes) → str_eq k j ≡ false → override j (given k v) o ≡ o
override-given_ne j k none o h = override-given j k none o
override-given_ne j k (some w) o h = rw override-given (rw h)

-- Updates that were all written leave each key with its last value.
stored-write_all :
    (now : Bytes) (us : List (Bytes × Bytes)) (db : Database) (j : Bytes)
    → (write_all now us db).0 ≡ none
    → stored j (write_all now us db).1.settings ≡ override j us (stored j db.settings)
unfolding write_all override
stored-write_all now [] db j h = refl
stored-write_all now ((k, v) ∷ us) db j h = elim (stored-set_setting now k v j db) [
  | inl (e, p) ↦
      rw (e, write_all)
        (stored-write_all now us (Settings.set_setting now k v db).1 j (ground arith)
          ∙ ap (override j us) p)
  | inr (e, p) ↦ ground arith
]

module _ (enc : Option Bytes) (req : SettingsRequest) (o : Option Bytes) where
  override-dashboard_token :
      override (bytes "dashboard_token") (updates enc req) o
      ≡ (elim (non_empty req.dashboard_token) [ none ↦ o | some t ↦ some t ])
  unfolding updates str_eq
  override-dashboard_token =
      simp (override-append, override-given_ne, override-given) (ground arith)

-- The stored dashboard token is the one that requests are checked against.
abbrev pub Agrees : Live → Type 0
Agrees s = stored (bytes "dashboard_token") s.db.settings ≡ some s.token

store_updates-Agrees :
    (now : Bytes) (enc : Option Bytes) (req : SettingsRequest) (s : Live)
    → Agrees s
    → (store_updates now enc req s).0.status ≡ 200
    → Agrees (store_updates now enc req s).1
unfolding store_updates
store_updates-Agrees now enc req s h ok =
    elim (Option-cases (write_all now (updates enc req) s.db).0) [
      | inr (k, e) ↦ ground arith
      | inl e ↦
          rw (e, store_updates)
            (stored-write_all now (updates enc req) s.db (bytes "dashboard_token") e
              ∙ override-dashboard_token enc req _
              ∙ ground arith)
    ]

store_updates-token :
    (now : Bytes) (enc : Option Bytes) (req : SettingsRequest) (s : Live)
    → (store_updates now enc req s).0.status ≢ 200
    → (store_updates now enc req s).1.token ≡ s.token
unfolding store_updates
store_updates-token now enc req s h = elim (Option-cases (write_all now (updates enc req) s.db).0) [
  | inr (k, e) ↦ rw (e, store_updates)
  | inl e ↦ absurd (h (rw (e, store_updates)))
]

encrypted-cases :
    (encrypt : Bytes → Option Bytes) (v : Option Bytes)
    → ((r : Response (Unit {0})) × (encrypted encrypt v ≡ halt r) × (r.status ≡ 500))
      ⊎ ((enc : Option Bytes) × (encrypted encrypt v ≡ go enc))
encrypted-cases encrypt none = inr (none, refl)
encrypted-cases encrypt (some v) = elim (Option-cases (encrypt v)) [
  | inl e ↦
      inl (json_error (message (bytes "failed to encrypt token")) 500, rw (e, encrypted), refl)
  | inr (enc, e) ↦ inr (some enc, rw (e, encrypted))
]

-- Where the text stored as the dashboard token is the live token itself, unencrypted, an update that
-- answers 200 keeps it so, whether it changes the token or not.
pub update-Agrees :
    (encrypt : Bytes → Option Bytes) (now : Bytes) (req : Option SettingsRequest) (s : Live)
    → Agrees s
    → (handle_update_general_settings encrypt now req s).0.status ≡ 200
    → Agrees (handle_update_general_settings encrypt now req s).1
unfolding handle_update_general_settings
update-Agrees encrypt now none s h ok = ground arith
update-Agrees encrypt now (some req) s h ok =
    elim (encrypted-cases encrypt (non_empty req.infisical_token)) [
      | inl (r, e, st) ↦ rw (e, handle_update_general_settings) h
      | inr (enc, e) ↦
          rw (e, handle_update_general_settings)
            (store_updates-Agrees now enc req s h (rw (e, handle_update_general_settings) at ok))
    ]

-- An update that does not answer 200 never changes the live token.
pub failed_update-token :
    (encrypt : Bytes → Option Bytes) (now : Bytes) (req : Option SettingsRequest) (s : Live)
    → (handle_update_general_settings encrypt now req s).0.status ≢ 200
    → (handle_update_general_settings encrypt now req s).1.token ≡ s.token
unfolding handle_update_general_settings
failed_update-token encrypt now none s h = refl
failed_update-token encrypt now (some req) s h =
    elim (encrypted-cases encrypt (non_empty req.infisical_token)) [
      | inl (r, e, st) ↦ rw (e, handle_update_general_settings)
      | inr (enc, e) ↦
          rw (e, handle_update_general_settings)
            (store_updates-token now enc req s (rw (e, handle_update_general_settings) at h))
    ]

abbrev pub only_token_and_interval : Bytes → ℕ → SettingsRequest
only_token_and_interval t n = record {
  infisical_token = none;
  infisical_project_id = none;
  infisical_env = none;
  infisical_url = none;
  git_user_name = none;
  git_user_email = none;
  dashboard_token = some t;
  default_sync_interval = some (pos n);
}

unsynced :
    (now : Bytes) (c : ℕ) (t : Bytes) (n : ℕ) (s : Live) (later : List Bool)
    → s.db.faults ≡ false ∷ true ∷ later
    → ((store_updates now none (only_token_and_interval (c ∷ t) (suc n)) s).0.status ≡ 500)
      × (stored
            (bytes "dashboard_token")
            (store_updates now none (only_token_and_interval (c ∷ t) (suc n)) s).1.db.settings
          ≡ some (c ∷ t))
      × ((store_updates now none (only_token_and_interval (c ∷ t) (suc n)) s).1.token ≡ s.token)
unfolding store_updates write_all updates Settings.set_setting
unsynced now c t n s later f = (
  ground arith,
  ground (
    arith,
    stored-upsert now (bytes "dashboard_token") (c ∷ t) (bytes "dashboard_token") s.db.settings,
    str_eq_refl (bytes "dashboard_token"),
  ),
  ground arith,
)

-- A request that sets a token and a positive interval, where the token is written and the interval
-- is not, answers 500 with the new token stored and the old one live.
pub token_out_of_sync :
    (encrypt : Bytes → Option Bytes) (now t : Bytes) (n : ℕ) (s : Live) (later : List Bool)
    → t ≢ []
    → 0 < n
    → s.db.faults ≡ false ∷ true ∷ later
    → ((handle_update_general_settings encrypt now (some (only_token_and_interval t n)) s).0.status
        ≡ 500)
      × (stored
            (bytes "dashboard_token")
            (handle_update_general_settings encrypt now
              (some (only_token_and_interval t n))
              s).1.db.settings
          ≡ some t)
      × ((handle_update_general_settings encrypt now (some (only_token_and_interval t n)) s).1.token
          ≡ s.token)
unfolding handle_update_general_settings
token_out_of_sync encrypt now [] n s later h p f = absurd (h refl)
token_out_of_sync encrypt now (c ∷ t) zero s later h p f = absurd (omega arith)
token_out_of_sync encrypt now (c ∷ t) (suc n) s later h p f = unsynced now c t n s later f
