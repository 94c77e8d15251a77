-- ===== src/Sync/Auth/Laws.antt =====
-- main.go: the files of keys around the authentication of a sync.
use stackd.Base.{
  ◌≡◌, inl, inr, refl, true, Bool-cases, Option-cases, none, some, [], ◌∷◌, arith, Bytes, bytes,
  is_empty, str_eq, str_eq_refl, Assoc, lookup, insert, delete,
}
use stackd.Db.{Result, ok, err}
use stackd.Db.Repos.{RepoDb}
use stackd.Db.Keys.{SshKeyDb, get_ssh_key}
use stackd.Sync.Auth.{
  SyncEnv, SyncState, Auth, failed, ready, clean_up, write_key, decrypt_key, pat_auth,
  setup_git_auth,
}

delete-absent : {V : Type 0} (k : Bytes) (m : Assoc V) → lookup k m ≡ none → delete k m ≡ m
unfolding delete lookup
delete-absent k [] e = refl
delete-absent k ((i, w) ∷ m) e = ground (arith, delete-absent k m)

delete-insert :
    {V : Type 0} (k : Bytes) (v : V) (m : Assoc V) → lookup k m ≡ none → delete k (insert k v m) ≡ m
unfolding delete insert lookup
delete-insert k v [] e = ground (arith, str_eq_refl k)
delete-insert k v ((i, w) ∷ m) e = ground (arith, delete-insert k v m, str_eq_refl k)

-- The files are those from before, once the cleanup was made.
abbrev pub IsCleaned : SyncEnv → Auth → (before after : Assoc Bytes) → Type 0
IsCleaned env (failed e) before after = after ≡ before
IsCleaned env (ready opts key_file) before after = clean_up env key_file after ≡ before

-- The path of the next temporary file is new, and the file there can be removed.
abbrev pub IsFresh : SyncEnv → Assoc Bytes → Type 0
IsFresh env files =
    (path : Bytes)
    → env.temp_file files ≡ some path
    → (lookup path files ≡ none) × (env.can_remove path ≡ true)

module _ (env : SyncEnv) where
  write_key-IsCleaned :
      (kind key : Bytes) (files : Assoc Bytes)
      → IsFresh env files
      → IsCleaned env (write_key env kind key files).0 files (write_key env kind key files).1
  unfolding write_key
  write_key-IsCleaned kind key files f = elim (Option-cases (env.temp_file files)) [
    | inl e ↦ rw (e, write_key) refl
    | inr (path, e) ↦
        let (absent, removed) = f path e in
        elim (Bool-cases (env.can_write path)) [
          | inl w ↦ rw (e, write_key) (rw w (rw removed (delete-insert path _ files absent)))
          | inr w ↦ rw (e, write_key) (rw w (rw removed (delete-insert path [] files absent)))
        ]
  ]

  decrypt_key-IsCleaned :
      (kind : Bytes) (r : Result SshKeyDb) (files : Assoc Bytes)
      → IsFresh env files
      → IsCleaned env (decrypt_key env kind r files).0 files (decrypt_key env kind r files).1
  decrypt_key-IsCleaned kind (err e) files f = refl
  decrypt_key-IsCleaned kind (ok key) files f =
      elim (Option-cases (env.decrypt key.private_key_enc)) [
        | inl e ↦ rw (e, decrypt_key) refl
        | inr (plain, e) ↦ rw (e, decrypt_key) (write_key-IsCleaned kind plain files f)
      ]

  pat_auth-IsCleaned :
      (kind pat_enc : Bytes) (files : Assoc Bytes)
      → IsCleaned env (pat_auth env kind pat_enc) files files
  pat_auth-IsCleaned kind pat_enc files = elim (Option-cases (env.decrypt pat_enc)) [
    | inl e ↦ rw (e, pat_auth) refl
    | inr (pat, e) ↦ rw (e, pat_auth) refl
  ]

  -- What setupGitAuth leaves as it was, and that its cleanup removes what it added.
  pub record AuthKeeps (s : SyncState) (a : Auth) (t : SyncState) : Type 0 where
    pub world : t.world ≡ s.world
    pub schedule : t.schedule ≡ s.schedule
    pub key_files : IsCleaned env a s.key_files t.key_files

  pub setup_git_auth-AuthKeeps :
      (repo : RepoDb) (s : SyncState)
      → IsFresh env s.key_files
      → AuthKeeps s (setup_git_auth env repo s).0 (setup_git_auth env repo s).1
  unfolding setup_git_auth
  setup_git_auth-AuthKeeps repo s f = elim (Bool-cases (str_eq repo.auth_type (bytes "ssh"))) [
    | inl e ↦ elim (Bool-cases (is_empty repo.ssh_key_id)) [
      | inl i ↦
          rw (e, setup_git_auth) (rw i (record { world = refl; schedule = refl; key_files = refl }))
      | inr i ↦
          rw (e, setup_git_auth)
            (rw i (record {
              world = refl;
              schedule = refl;
              key_files =
                  decrypt_key-IsCleaned repo.auth_type
                    (get_ssh_key env.parse_time repo.ssh_key_id s.db).0 s.key_files f;
            }))
    ]
    | inr e ↦ elim (Bool-cases (str_eq repo.auth_type (bytes "pat"))) [
      | inl p ↦ elim (Bool-cases (is_empty repo.pat_enc)) [
        | inl i ↦
            rw (e, setup_git_auth)
              (rw p (rw i (record { world = refl; schedule = refl; key_files = refl })))
        | inr i ↦
            rw (e, setup_git_auth)
              (rw p (
                rw i (record {
                  world = refl;
                  schedule = refl;
                  key_files = pat_auth-IsCleaned repo.auth_type repo.pat_enc s.key_files;
                })))
      ]
      | inr p ↦
          rw (e, setup_git_auth) (rw p (record { world = refl; schedule = refl; key_files = refl }))
    ]
  ]
