-- ===== src/Server/Status/Examples.antt =====
-- Tests of the status.
use stackd.Base.{◌≡◌, refl, true, false, bytes, text, insert}
use stackd.State.{no_repo, no_stack}
use stackd.State.Store.{
  Store, new, update_repo, update_stack, get_all, get_all_repos, get_all_stacks,
}
use stackd.Server.Status.{ready, not_ready, handle_status, readyz}
use stackd.Server.Status.Laws.{Shows, handle_status-Shows}

abbrev store : Store
store =
    update_stack (record no_stack { name = bytes "web"; repo_name = bytes "infra" })
      (update_repo (record no_repo { name = bytes "infra" })
        (update_repo (record no_repo { name = bytes "apps" }) new))

fresh_install : readyz true new ≡ ready
unfolding readyz new get_all_repos get_all_stacks
fresh_install = refl

unsynced : readyz true store ≡ not_ready true false
unfolding readyz new get_all_repos get_all_stacks update_repo update_stack insert text
unsynced = refl

handle_status-Shows_example : Shows (get_all store) (handle_status store)
handle_status-Shows_example = handle_status-Shows store
