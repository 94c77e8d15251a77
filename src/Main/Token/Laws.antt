-- ===== src/Main/Token/Laws.antt =====
-- main.go: what the start of the program leaves of the dashboard's token.
use stackd.Base.{
  ◌≡◌, ◌≢◌, inl, inr, refl, ap, ◌∙◌, Bool-cases, Option-cases, true, false, Option, none, some, [],
  ◌++◌, arith, Bytes, bytes, is_empty, is_empty-eq-true, is_empty-eq-false, sym, ◌⊎◌, ◌∷◌, lookup,
}
use stackd.Db.{Database, fails}
use stackd.Db.Settings.{get_setting}
use stackd.Db.Settings.Laws.{stored, get_setting-stored}
use stackd.Server.Settings.{value_or_empty}
use stackd.Server.Settings.Laws.{Agrees}
use stackd.Main.Token.Generated.{Writes, Generated, new_token, no_token, generate-Generated}
use stackd.Main.Token.{
  TokenEnv, TokenState, TokenError, set_token, token_path, load_or_generate, ensure_dashboard_token,
}

-- Where GetSetting gives no token: the statement fails, or no token or the empty one is stored.
abbrev pub IsUnstored : Database → Type 0
IsUnstored db =
    (fails db ≡ true)
    ⊎ ((stored (bytes "dashboard_token") db.settings ≡ none)
        ⊎ (stored (bytes "dashboard_token") db.settings ≡ some []))

-- The ends of the start: the token of the variable with nothing else changed; without the variable
-- the stored token; without both a new one that is stored and can be read from the file; or, without
-- both, an error that leaves the live token and the stored settings as they were.
pub data Ensured (env_token clone_dir : Bytes) (s : TokenState)
    : Option TokenError → TokenState → Type 0 where
  from_env :
      (t : TokenState)
      → env_token ≢ []
      → t.live.token ≡ env_token
      → t.live.db ≡ s.live.db
      → t.files ≡ s.files
      → Ensured env_token clone_dir s none t
  from_db :
      (t : TokenState)
      → env_token ≡ []
      → fails s.live.db ≡ false
      → t.live.token ≢ []
      → stored (bytes "dashboard_token") s.live.db.settings ≡ some t.live.token
      → t.live.db.settings ≡ s.live.db.settings
      → t.files ≡ s.files
      → Ensured env_token clone_dir s none t
  generated :
      (t : TokenState)
      → env_token ≡ []
      → IsUnstored s.live.db
      → t.live.token ≢ []
      → Agrees t.live
      → lookup (token_path clone_dir) t.files ≡ some (t.live.token ++ bytes "\n")
      → Ensured env_token clone_dir s none t
  failed :
      (e : TokenError) (t : TokenState)
      → env_token ≡ []
      → IsUnstored s.live.db
      → t.live.token ≡ s.live.token
      → t.live.db.settings ≡ s.live.db.settings
      → Ensured env_token clone_dir s (some e) t

module _ (env : TokenEnv) (w : Writes env) (now clone_dir : Bytes) where
  get_setting-settings :
      (key : Bytes) (db : Database) → (get_setting key db).1.settings ≡ db.settings
  unfolding get_setting
  get_setting-settings key db = refl

  read_token :
      (db : Database) {v : Bytes}
      → fails db ≡ false
      → stored (bytes "dashboard_token") db.settings ≡ some v
      → value_or_empty (get_setting (bytes "dashboard_token") db).0 ≡ v
  read_token db f h =
      let (b, e) = get_setting-stored (bytes "dashboard_token") db f h in ap value_or_empty e

  unread_token :
      (db : Database)
      → (fails db ≡ true) ⊎ (stored (bytes "dashboard_token") db.settings ≡ none)
      → value_or_empty (get_setting (bytes "dashboard_token") db).0 ≡ []
  unfolding get_setting
  unread_token db (inl f) = rw f refl
  unread_token db (inr n) = elim (Bool-cases (fails db)) [
    | inl f ↦ rw f refl
    | inr f ↦ ground (arith, f, n)
  ]

  -- Whether a token is stored that can be read.
  Token-cases :
      (db : Database)
      → (IsUnstored db × (value_or_empty (get_setting (bytes "dashboard_token") db).0 ≡ []))
        ⊎ ((fails db ≡ false)
            × (value_or_empty (get_setting (bytes "dashboard_token") db).0 ≢ [])
            × (stored (bytes "dashboard_token") db.settings
                ≡ some (value_or_empty (get_setting (bytes "dashboard_token") db).0)))
  Token-cases db = elim (Bool-cases (fails db)) [
    | inl f ↦ inl (inl f, unread_token db (inl f))
    | inr f ↦ elim (Option-cases (stored (bytes "dashboard_token") db.settings)) [
      | inl n ↦ inl (inr (inl n), unread_token db (inr n))
      | inr (v, e) ↦
          let r = read_token db f e in
          elim (Bool-cases (is_empty v)) [
            | inl z ↦ let n = is_empty-eq-true v z in inl (inr (inr (e ∙ ap some n)), r ∙ n)
            | inr z ↦ inr (f, (λ q. is_empty-eq-false v z (sym r ∙ q)), e ∙ ap some (sym r))
          ]
    ]
  ]

  load_or_generate-Ensured :
      env.env_token ≡ []
      → (s : TokenState)
      → Ensured env.env_token clone_dir s
          (load_or_generate env now clone_dir s).0
          (load_or_generate env now clone_dir s).1
  unfolding load_or_generate
  load_or_generate-Ensured no_env s =
      let r = get_setting (bytes "dashboard_token") s.live.db in
      let asked = record s { live = record s.live { db = r.1 } } in
      let token = value_or_empty r.0 in
      let kept = get_setting-settings (bytes "dashboard_token") s.live.db in
      elim (Token-cases s.live.db) [
        | inl (u, e) ↦
            let z : is_empty token ≡ true = ap is_empty e in
            rw (z, load_or_generate)
              (asked_before s asked _ _ u kept refl (generate-Generated env w now clone_dir asked))
        | inr (f, n, e) ↦
            let z : is_empty token ≡ false = nonempty token n in
            rw (z, load_or_generate) (from_db (set_token token asked) no_env f n e kept refl)
      ]
    where
      nonempty : (v : Bytes) → v ≢ [] → is_empty v ≡ false
      nonempty [] n = absurd (n refl)
      nonempty (c ∷ v) n = refl

      asked_before :
          (s s' : TokenState) (r : Option TokenError) (t : TokenState)
          → IsUnstored s.live.db
          → s'.live.db.settings ≡ s.live.db.settings
          → s'.live.token ≡ s.live.token
          → Generated clone_dir s' r t
          → Ensured env.env_token clone_dir s r t
      asked_before s s' _ _ u e f (new_token t a b c) = generated t no_env u a b c
      asked_before s s' _ _ u e f (no_token x t a b) = failed x t no_env u (a ∙ f) (b ∙ e)

  -- The start of the program gives the dashboard a token that is not empty: that of the variable
  -- wherever it is set; else the stored one wherever it can be read and is not empty, with the
  -- database's settings and the files as they were; else a new one that is both stored and in the
  -- file, where files are written as promised and base64 gives a text. It fails only without the first
  -- two, and then the live token and the stored settings are as before. So there is no start without a
  -- token, unlike the documents say.
  pub ensure_dashboard_token-Ensured :
      (s : TokenState)
      → Ensured env.env_token clone_dir s
          (ensure_dashboard_token env now clone_dir s).0
          (ensure_dashboard_token env now clone_dir s).1
  unfolding ensure_dashboard_token
  ensure_dashboard_token-Ensured s = elim (Bool-cases (is_empty env.env_token)) [
    | inl e ↦
        rw (e, ensure_dashboard_token)
          (load_or_generate-Ensured (is_empty-eq-true env.env_token e) s)
    | inr e ↦
        rw (e, ensure_dashboard_token)
          (from_env (set_token env.env_token s) (is_empty-eq-false env.env_token e) refl refl refl)
  ]
