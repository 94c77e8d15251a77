-- ===== src/Server/Repos/Requests.antt =====
-- internal/server/settings_handlers.go: the table of repositories after any requests.
use stackd.Base.{Option, List, [], ◌∷◌, Bytes}
use stackd.Db.{Database}
use stackd.Server.Repos.{
  Env, RepoRequest, handle_list_repos, handle_create_repo, handle_get_repo, handle_update_repo,
  handle_delete_repo,
}
use stackd.Server.Repos.Preserves.{
  IsValidTable, handle_create_repo-IsValid, handle_update_repo-IsValid, handle_delete_repo-IsValid,
  handle_get_repo-IsValid, handle_list_repos-IsValid,
}

-- A request of the repositories, with the identifier and the time that its handler is given.
pub data Request : Type 0 where
  create : (uuid now : Bytes) → Option RepoRequest → Request
  update : (now id : Bytes) → Option RepoRequest → Request
  delete : (id : Bytes) → Request
  get : (id : Bytes) → Request
  list : Request

abbrev pub at_time : Env → (uuid now : Bytes) → Env
at_time env uuid now = record env { uuid = uuid; now = now }

abbrev pub handle : Env → Request → Database → Database
handle env (create uuid now req) db = (handle_create_repo (at_time env uuid now) req db).1
handle env (update now id req) db = (handle_update_repo (at_time env [] now) id req db).1
handle env (delete id) db = (handle_delete_repo id db).1
handle env (get id) db = (handle_get_repo env id db).1
handle env list db = (handle_list_repos env db).1

-- The database after the requests, in their order.
abbrev pub handle_all : Env → List Request → Database → Database
handle_all env [] db = db
handle_all env (r ∷ rs) db = handle_all env rs (handle env r db)

-- Whatever the requests and wherever the database fails, a table of valid repositories stays one:
-- each name is one component of a path, each branch and remote a ref, each URL a safe remote once
-- trimmed, and each interval is not negative.
pub handle_all-IsValid :
    (env : Env) (rs : List Request) (db : Database)
    → IsValidTable env db
    → IsValidTable env (handle_all env rs db)
handle_all-IsValid env [] db h = h
handle_all-IsValid env (create uuid now req ∷ rs) db h =
    handle_all-IsValid env rs _ (handle_create_repo-IsValid (at_time env uuid now) db h req)
handle_all-IsValid env (update now id req ∷ rs) db h =
    handle_all-IsValid env rs _ (handle_update_repo-IsValid (at_time env [] now) db h id req)
handle_all-IsValid env (delete id ∷ rs) db h =
    handle_all-IsValid env rs _ (handle_delete_repo-IsValid env db h id)
handle_all-IsValid env (get id ∷ rs) db h =
    handle_all-IsValid env rs _ (handle_get_repo-IsValid env db h id)
handle_all-IsValid env (list ∷ rs) db h =
    handle_all-IsValid env rs _ (handle_list_repos-IsValid env db h)
