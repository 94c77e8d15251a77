-- ===== src/Server/Repos/Errors.antt =====
-- internal/server/settings_handlers.go: what a creation leaves in the table, by its answer.
use stackd.Base.{◌≡◌, ◌⊎◌, inl, inr, refl, any, some, List, [], ◌∷◌, ◌++◌, arith, Bytes, false, ◌∙◌}
use stackd.Db.{Database, Result, ok, err}
use stackd.Db.Repos.{RepoDb, new_row, conflicts}
use stackd.Db.Repos.Laws.{repos-list_repos, create_repo-cases}
use stackd.Server.Http.{halt, go, Response}
use stackd.Server.Repos.Preserves.{Step-cases}
use stackd.Server.Repos.{
  Env, RepoRequest, RepoResponse, check_create, store_created, created, handle_create_repo,
}

-- A creation that is accepted: the request passed the checks, the statement did not fail, no row had
-- its identifier or its name, and the table has the checked repository as one more row.
pub record IsCreated (env : Env) (req : RepoRequest) (before after : Database) : Type 0 where
  pub repo : RepoDb
  pub checked : check_create env req ≡ go repo
  pub no_conflict : any (conflicts (new_row env.uuid env.now repo)) before.repos ≡ false
  pub appended : after.repos ≡ before.repos ++ new_row env.uuid env.now repo ∷ []

-- A creation that stops early answers 400 or 500.
check_create-status :
    (env : Env) (req : RepoRequest) {r : Response RepoResponse}
    → check_create env req ≡ halt r
    → (r.status ≡ 400) ⊎ (r.status ≡ 500)
unfolding check_create
check_create-status env req e = ground arith

created-status : (name : Bytes) (r : Result (List RepoDb)) → (created name r).status ≡ 201
unfolding created
created-status name (ok rs) = refl
created-status name (err e) = refl

module _ (env : Env) (db : Database) where
  store_created-cases :
      (r : RepoDb)
      → ((store_created env r db).0.status ≡ 201)
          × (any (conflicts (new_row env.uuid env.now r)) db.repos ≡ false)
          × ((store_created env r db).1.repos ≡ db.repos ++ new_row env.uuid env.now r ∷ [])
        ⊎ ((store_created env r db).0.status ≡ 500) × ((store_created env r db).1.repos ≡ db.repos)
  unfolding store_created
  store_created-cases r = elim (create_repo-cases db env.uuid env.now r) [
    | inl (e, c, p) ↦ inl (
      rw (e, store_created) (created-status r.name _),
      c,
      rw (e, store_created) (repos-list_repos env.parse_time _ ∙ p),
    )
    | inr (e, p) ↦ inr (rw (e, store_created) refl, rw (e, store_created) p)
  ]

  -- What handleCreateRepo leaves: the one more row with answer 201, the table as it was with 400 or 500.
  abbrev pub CreateOutcome : RepoRequest → Response RepoResponse → Database → Type 0
  CreateOutcome req r after =
      ((r.status ≡ 201) × IsCreated env req db after)
      ⊎ (((r.status ≡ 400) ⊎ (r.status ≡ 500)) × (after.repos ≡ db.repos))

  stored-outcome :
      (req : RepoRequest) (r : RepoDb)
      → check_create env req ≡ go r
      → CreateOutcome req (store_created env r db).0 (store_created env r db).1
  stored-outcome req r e = elim (store_created-cases r) [
    | inl (s, c, p) ↦ inl (s, record { repo = r; checked = e; no_conflict = c; appended = p })
    | inr (s, p) ↦ inr (inr s, p)
  ]

  -- A creation answers 201 and stores the checked repository as one more row, whose identifier and
  -- name no row had, or answers 400 or 500 and leaves the table as it was.
  pub handle_create_repo-CreateOutcome :
      (req : RepoRequest)
      → CreateOutcome req
          (handle_create_repo env (some req) db).0
          (handle_create_repo env (some req) db).1
  unfolding handle_create_repo
  handle_create_repo-CreateOutcome req = elim (Step-cases (check_create env req)) [
    | inl (r, e) ↦ rw (e, handle_create_repo) (inr (check_create-status env req e, refl))
    | inr (r, e) ↦ rw (e, handle_create_repo) (stored-outcome req r e)
  ]
