-- ===== src/Main/Token/Generated.antt =====
-- main.go: what the making of a new dashboard token leaves.
use stackd.Base.{
  ◌≡◌, ◌≢◌, inl, inr, refl, ◌∙◌, Bool-cases, Option-cases, true, Option, none, some, [], ◌++◌,
  Bytes, bytes, str_eq_refl, Assoc, lookup,
}
use stackd.Db.Settings.{set_setting}
use stackd.Db.Settings.Laws.{stored-set_setting}
use stackd.Server.Settings.Laws.{Agrees}
use stackd.Main.Token.{TokenEnv, TokenState, TokenError, set_token, token_path, persist, generate}

-- What os.WriteFile and base64 promise: a file that was written has its content, and the text of
-- some bytes is not empty.
pub record Writes (env : TokenEnv) : Type 0 where
  pub content :
      (path content : Bytes) (files : Assoc Bytes)
      → (env.write_file path content files).0 ≡ true
      → lookup path (env.write_file path content files).1 ≡ some content
  pub text : (buf : Bytes) → env.random ≡ some buf → env.encode buf ≢ []

-- What becomes of the state where a new token is made: it is stored, live and in the file, or there is
-- an error and the live token and the stored settings are as they were.
pub data Generated (clone_dir : Bytes) (s : TokenState)
    : Option TokenError → TokenState → Type 0 where
  new_token :
      (t : TokenState)
      → t.live.token ≢ []
      → Agrees t.live
      → lookup (token_path clone_dir) t.files ≡ some (t.live.token ++ bytes "\n")
      → Generated clone_dir s none t
  no_token :
      (e : TokenError) (t : TokenState)
      → t.live.token ≡ s.live.token
      → t.live.db.settings ≡ s.live.db.settings
      → Generated clone_dir s (some e) t

module _ (env : TokenEnv) (w : Writes env) (now clone_dir : Bytes) where
  persist-Generated :
      (token : Bytes) (s : TokenState)
      → token ≢ []
      → lookup (token_path clone_dir) s.files ≡ some (token ++ bytes "\n")
      → Generated clone_dir s
          (persist env now clone_dir token s).0
          (persist env now clone_dir token s).1
  unfolding persist
  persist-Generated token s n f =
      elim (stored-set_setting now (bytes "dashboard_token") token (bytes "dashboard_token")
        s.live.db) [
          | inl (e, p) ↦
              let k : Agrees
                  (set_token token (record s {
                    live = record s.live {
                      db = (set_setting now (bytes "dashboard_token") token s.live.db).1;
                    };
                  })).live =
                p ∙ rw str_eq_refl refl in
              rw (e, persist) (new_token _ n k f)
          | inr (e, p) ↦ rw (e, persist) (no_token _ _ refl p)
        ]

  pub generate-Generated :
      (s : TokenState)
      → Generated clone_dir s (generate env now clone_dir s).0 (generate env now clone_dir s).1
  unfolding generate
  generate-Generated s = elim (Option-cases env.random) [
    | inl e ↦ rw (e, generate) (no_token _ s refl refl)
    | inr (buf, e) ↦
        let token = env.encode buf in
        let path = token_path clone_dir in
        let content = token ++ bytes "\n" in
        let f = env.write_file path content s.files in
        elim (Bool-cases f.0) [
          | inl o ↦
              rw (e, generate)
                (rw o (
                  after_file s f.1 _ _ (
                    persist-Generated token (record s { files = f.1 }) (w.text buf e)
                      (w.content path content s.files o))))
          | inr o ↦ rw (e, generate) (rw o (no_token _ _ refl refl))
        ]
  ]
    where
      after_file :
          (s : TokenState) (files : Assoc Bytes) (r : Option TokenError) (t : TokenState)
          → Generated clone_dir (record s { files = files }) r t
          → Generated clone_dir s r t
      after_file s files _ _ (new_token t a b c) = new_token t a b c
      after_file s files _ _ (no_token x t a b) = no_token x t a b
