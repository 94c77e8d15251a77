-- ===== src/Server/Repos/Preserves.antt =====
-- internal/server/settings_handlers.go: every handler of the repositories keeps the table valid.
use stackd.Base.{◌⊎◌, ◌≡◌, refl, Option, Option-cases, none, some, inl, inr, Bytes, All, subst, sym}
use stackd.Db.{RepoRow, Database, Result, ok, err}
use stackd.Db.Repos
use stackd.Db.Repos.{RepoDb, scan_repo, set_row, new_row}
use stackd.Db.Repos.Laws.{
  create_repo-All, update_repo-All, delete_repo-All, get_repo-All, repos-get_repo, repos-list_repos,
}
use stackd.Server.Http.{Step, halt, go, Response}
use stackd.Server.Repos.{
  Env, RepoRequest, check_create, store_created, handle_create_repo, check_update, store_updated,
  update_found, handle_update_repo, handle_delete_repo, handle_get_repo, handle_list_repos,
}
use stackd.Server.Repos.Validity.{
  IsValid, IsValidRepo, check_create-IsValidRepo, check_update-IsValidRepo,
}

abbrev pub IsValidRow : Env → RepoRow → Type 0
IsValidRow env q = IsValid env.parse_url q.name q.url q.branch q.remote q.sync_interval

abbrev pub IsValidTable : Env → Database → Type 0
IsValidTable env db = All (IsValidRow env) db.repos

pub Step-cases :
    {A B : Type 0} (s : Step A B) → ((r : Response A) × (s ≡ halt r)) ⊎ ((b : B) × (s ≡ go b))
Step-cases (halt r) = inl (r, refl)
Step-cases (go b) = inr (b, refl)

module _ (env : Env) (db : Database) (h : IsValidTable env db) where
  store_created-IsValid :
      (r : RepoDb) → IsValidRepo env r → IsValidTable env (store_created env r db).1
  unfolding store_created
  store_created-IsValid r v =
      let kept = create_repo-All (IsValidRow env) db h env.uuid env.now r v in
      elim (Option-cases (Repos.create_repo env.uuid env.now r db).0) [
        | inl e ↦ rw (e, store_created) (rw repos-list_repos kept)
        | inr (x, e) ↦ rw (e, store_created) kept
      ]

  store_updated-IsValid :
      (r : RepoDb) → IsValidRepo env r → IsValidTable env (store_updated env r db).1
  unfolding store_updated
  store_updated-IsValid r v =
      let kept = update_repo-All (IsValidRow env) db h env.now r (λ q _. v) in
      elim (Option-cases (Repos.update_repo env.now r db).0) [
        | inl e ↦ rw (e, store_updated) (rw repos-get_repo kept)
        | inr (x, e) ↦ rw (e, store_updated) kept
      ]

  -- A creation, accepted or refused, keeps every stored repository valid.
  pub handle_create_repo-IsValid :
      (req : Option RepoRequest) → IsValidTable env (handle_create_repo env req db).1
  unfolding handle_create_repo
  handle_create_repo-IsValid none = h
  handle_create_repo-IsValid (some req) = elim (Step-cases (check_create env req)) [
    | inl (r, e) ↦ rw e h
    | inr (r, e) ↦ rw e (store_created-IsValid r (check_create-IsValidRepo env req e))
  ]

  update_found-IsValid :
      (id : Bytes) (req : Option RepoRequest) (r : Result RepoDb)
      → ((old : RepoDb) → r ≡ ok old → IsValidRepo env old)
      → IsValidTable env (update_found env id req r db).1
  update_found-IsValid id req (err x) v = h
  update_found-IsValid id none (ok old) v = h
  update_found-IsValid id (some req) (ok old) v = elim (Step-cases (check_update env id old req)) [
    | inl (r, e) ↦ rw e h
    | inr (r, e) ↦
        rw e (store_updated-IsValid r (check_update-IsValidRepo env id old req (v old refl) e))
  ]

  found-IsValid :
      (id : Bytes) (old : RepoDb)
      → (Repos.get_repo env.parse_time id db).0 ≡ ok old
      → IsValidRepo env old
  found-IsValid id old e =
      let (q, v, same) = get_repo-All (IsValidRow env) db h env.parse_time id e in
      subst (IsValidRepo env) (sym same) v

-- An update keeps every stored repository valid, whatever it changes and wherever it fails.
pub handle_update_repo-IsValid :
    (env : Env) (db : Database)
    → IsValidTable env db
    → (id : Bytes) (req : Option RepoRequest)
    → IsValidTable env (handle_update_repo env id req db).1
unfolding handle_update_repo
handle_update_repo-IsValid env db h id req =
    update_found-IsValid env (Repos.get_repo env.parse_time id db).1 (rw repos-get_repo h) id req _
      (found-IsValid env db h id)

-- A deletion keeps the remaining repositories valid.
pub handle_delete_repo-IsValid :
    (env : Env) (db : Database)
    → IsValidTable env db
    → (id : Bytes) → IsValidTable env (handle_delete_repo id db).1
unfolding handle_delete_repo
handle_delete_repo-IsValid env db h id = delete_repo-All (IsValidRow env) db h id

-- The handlers that read change no row.
pub handle_get_repo-IsValid :
    (env : Env) (db : Database)
    → IsValidTable env db
    → (id : Bytes) → IsValidTable env (handle_get_repo env id db).1
unfolding handle_get_repo
handle_get_repo-IsValid env db h id = rw repos-get_repo h

pub handle_list_repos-IsValid :
    (env : Env) (db : Database)
    → IsValidTable env db
    → IsValidTable env (handle_list_repos env db).1
unfolding handle_list_repos
handle_list_repos-IsValid env db h = rw repos-list_repos h
