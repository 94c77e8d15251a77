-- ===== src/Main/Callback/Laws.antt =====
-- main.go: what the callback keeps.
use stackd.Base.{
  ◌≡◌, refl, ℕ, sym, subst, ◌∙◌, inl, inr, Option-cases, Option, List, ◌++◌, Bytes, bytes, Bool,
}
use stackd.Process.{Cmd, Host}
use stackd.State.{ContainerDetail, StackState}
use stackd.State.Store.{get_stack}
use stackd.State.Store.Laws.{get_repo-update_stack}
use stackd.Db.{Result, ok, err, Database}
use stackd.Db.Repos.{RepoDb, get_repo_by_name}
use stackd.Stacks.Compose.{InfisicalConfig}
use stackd.Stacks.Apply.{apply_stack}
use stackd.Stacks.Apply.Laws.{AllSettled, apply_stack-store, apply_stack-AllSettled}
use stackd.Docker.Holder.{ClientHolder}
use stackd.Sync.Auth.{SyncEnv, SyncState}
use stackd.Sync.Auth.Laws.{IsFresh}
use stackd.Sync.Repo.{event, emit}
use stackd.Sync.Repo.Laws.{git_sync_to_disk-DiskKeeps}
use stackd.Sync.Repo.Others.{IsNamed}
use stackd.Main.Config.{load_infisical, one_minute}
use stackd.Main.Round.Laws.{IsSound}
use stackd.Main.Loop.{LoopState, with_db}
use stackd.Main.Loop.Laws.{with_db-IsSound, refresh-IsSound}
use stackd.Main.Callback.{pull, apply_known, with_repo, with_stack, callback}

module _ (env : SyncEnv) (h : Host)
    (list_containers : List Cmd → Bytes → Option (List ContainerDetail)) (stopped : List Cmd → Bool)
    (clone_dir : Bytes) (created : List Cmd → Option ℕ)
    (others : ℕ → Option ClientHolder → Option ClientHolder) where
  pull-IsSound :
      (cfg : InfisicalConfig) (repo_name : Bytes) (repo : RepoDb) (s : SyncState)
      → IsSound env s
      → IsSound env
          (pull env h list_containers stopped clone_dir created others cfg repo_name repo s)
  unfolding pull
  pull-IsSound cfg repo_name repo s k =
      let pulling = event (bytes "pulling") repo_name (bytes "Pulling " ++ repo_name) in
      let keeps =
        git_sync_to_disk-DiskKeeps env h list_containers cfg clone_dir one_minute repo
          (emit pulling s) k.fresh in
      record {
        fresh = subst (IsFresh env) (sym keeps.key_files) k.fresh;
        named = subst IsNamed (sym keeps.store) k.named;
        settled = subst AllSettled (sym keeps.store) k.settled;
      }

  apply_known-IsSound :
      (cfg : InfisicalConfig) (repo_name stack_name dir : Bytes) (m : LoopState)
      → IsSound env m.sync
      → IsSound env
          (apply_known env h list_containers stopped clone_dir created others cfg repo_name
            stack_name dir m).sync
  unfolding apply_known
  apply_known-IsSound cfg repo_name stack_name dir m k =
      let w = apply_stack h list_containers cfg dir stack_name repo_name m.sync.world in
      let e = apply_stack-store h list_containers cfg dir stack_name repo_name m.sync.world in
      refresh-IsSound env h list_containers stopped clone_dir created others _ (record {
        fresh = k.fresh;
        named = subst IsNamed (sym e) (λ name r f.
            k.named name r (sym (get_repo-update_stack _ name m.sync.world.store) ∙ f));
        settled =
            apply_stack-AllSettled h list_containers cfg dir stack_name repo_name m.sync.world
              k.settled;
      })

  with_repo-IsSound :
      (repo_name stack_name dir : Bytes) (r : Result RepoDb) (db : Database) (m : LoopState)
      → IsSound env m.sync
      → IsSound env
          (with_repo env h list_containers stopped clone_dir created others repo_name stack_name dir
            r db m).sync
  unfolding with_repo
  with_repo-IsSound repo_name stack_name dir (err e) db m k =
      with_db-IsSound env h list_containers stopped clone_dir created others db m.sync k
  with_repo-IsSound repo_name stack_name dir (ok repo) db m k =
      let (cfg, db') = load_infisical env.decrypt db in
      let start = with_db db' m.sync in
      apply_known-IsSound cfg repo_name stack_name dir _ (
        pull-IsSound cfg repo_name repo start
          (with_db-IsSound env h list_containers stopped clone_dir created others db' m.sync k))

  with_stack-IsSound :
      (repo_name stack_name : Bytes) (st : StackState) (m : LoopState)
      → IsSound env m.sync
      → IsSound env
          (with_stack env h list_containers stopped clone_dir created others repo_name stack_name st
            m).sync
  unfolding with_stack
  with_stack-IsSound repo_name stack_name st m k =
      let (r, db) = get_repo_by_name env.parse_time repo_name m.sync.db in
      with_repo-IsSound repo_name stack_name st.stack_dir r db m k

  pull-key_files :
      (cfg : InfisicalConfig) (repo_name : Bytes) (repo : RepoDb) (s : SyncState)
      → IsFresh env s.key_files
      → (pull env h list_containers stopped clone_dir created others cfg repo_name repo s).key_files
        ≡ s.key_files
  unfolding pull
  pull-key_files cfg repo_name repo s f =
      let pulling = event (bytes "pulling") repo_name (bytes "Pulling " ++ repo_name) in
      (git_sync_to_disk-DiskKeeps env h list_containers cfg clone_dir one_minute repo
        (emit pulling s) f).key_files

  with_repo-key_files :
      (repo_name stack_name dir : Bytes) (r : Result RepoDb) (db : Database) (m : LoopState)
      → IsFresh env m.sync.key_files
      → (with_repo env h list_containers stopped clone_dir created others repo_name stack_name dir r
          db m).sync.key_files
        ≡ m.sync.key_files
  unfolding with_repo apply_known
  with_repo-key_files repo_name stack_name dir (err e) db m f = refl
  with_repo-key_files repo_name stack_name dir (ok repo) db m f =
      let (cfg, db') = load_infisical env.decrypt db in
      pull-key_files cfg repo_name repo (with_db db' m.sync) f

  -- What an apply of one stack leaves: a sound state, and the files of keys that were there before.
  pub record IsLeftSound (before after : SyncState) : Type 0 where
    pub sound : IsSound env after
    pub key_files : after.key_files ≡ before.key_files

  -- An apply of one stack from the dashboard, whatever comes of the pull and of the command, leaves
  -- no stack "applying", each repository's state under its name, and exactly the files of keys that
  -- were there before it, where the path of the temporary file is new and the file there can be
  -- removed.
  pub callback-IsSound :
      (repo_name stack_name : Bytes) (m : LoopState)
      → IsSound env m.sync
      → IsLeftSound m.sync
          (callback env h list_containers stopped clone_dir created others repo_name stack_name
            m).sync
  unfolding callback with_stack
  callback-IsSound repo_name stack_name m k =
      elim (Option-cases (get_stack repo_name stack_name m.sync.world.store)) [
        | inl e ↦ rw (e, callback) (record { sound = k; key_files = refl })
        | inr (st, e) ↦
            let (r, db) = get_repo_by_name env.parse_time repo_name m.sync.db in
            rw (e, callback)
              (record {
                sound = with_stack-IsSound repo_name stack_name st m k;
                key_files = with_repo-key_files repo_name stack_name st.stack_dir r db m k.fresh;
              })
      ]
