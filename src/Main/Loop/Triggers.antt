-- ===== src/Main/Loop/Triggers.antt =====
-- main.go: what a trigger does to a repository.
use stackd.Base.{
  ℕ, ◌≡◌, refl, subst, sym, ◌∙◌, inl, inr, Bool-cases, Bool, true, false, Option, some, List, [],
  ◌∷◌, ◌++◌, All, any, keep, Bytes, str_eq, str_eq_refl, ℤ,
}
use stackd.Process.{Cmd, Host}
use stackd.State.{ContainerDetail, RepoState}
use stackd.State.Store.{get_repo}
use stackd.Schedule.{fresh, reset_backoff}
use stackd.Schedule.Laws.{backoff_of, backoff_of-reset}
use stackd.Schedule.Due.{due-reset}
use stackd.Db.Repos.{RepoDb}
use stackd.Stacks.Compose.{InfisicalConfig}
use stackd.Docker.Holder.{ClientHolder}
use stackd.Sync.Auth.{SyncEnv, SyncState}
use stackd.Sync.Repo.Laws.{IsRecorded, sync_repo_from_db-SyncOutcome}
use stackd.Sync.Repo.Others.{KeepsRepo, KeepsRepo-trans, sync_repo_from_db-KeepsRepo}
use stackd.Server.Trigger.{to_sync}
use stackd.Main.Config.{load_infisical}
use stackd.Main.Round.{sync}
use stackd.Main.Round.Laws.{IsSound, sync-IsSound}
use stackd.Main.Loop.{LoopState, Plan, with_db, sync_triggered, handle_triggers}
use stackd.Main.Loop.Laws.{refresh-RefreshKeeps}

-- A repository that was synced after its retry state was reset.
pub record Retried (name : Bytes) (t : SyncState) : Type 0 where
  pub repo : RepoState
  pub stored : get_repo name t.world.store ≡ some repo
  pub recorded : IsRecorded name fresh repo (backoff_of name t.schedule)

-- What becomes of a repository under a list of triggered names.
pub data Answered (name : Bytes) (names : List Bytes) (s t : SyncState) : Type 0 where
  asked : any (str_eq name) names ≡ true → Retried name t → Answered name names s t
  not_asked : any (str_eq name) names ≡ false → KeepsRepo name s t → Answered name names s t

module _ (env : SyncEnv) (h : Host)
    (list_containers : List Cmd → Bytes → Option (List ContainerDetail)) (stopped : List Cmd → Bool)
    (clone_dir : Bytes) (created : List Cmd → Option ℕ)
    (others : ℕ → Option ClientHolder → Option ClientHolder) where
  module _ (cfg : InfisicalConfig) (interval : ℤ) where
    abbrev reset : RepoDb → SyncState → SyncState
    reset repo s = record s { schedule = reset_backoff repo.name s.schedule }

    abbrev step : RepoDb → SyncState → SyncState
    step repo s = sync env h list_containers stopped clone_dir cfg interval repo (reset repo s)

    reset-IsSound : (repo : RepoDb) (s : SyncState) → IsSound env s → IsSound env (reset repo s)
    reset-IsSound repo s k = record { fresh = k.fresh; named = k.named; settled = k.settled }

    step-IsSound : (repo : RepoDb) (s : SyncState) → IsSound env s → IsSound env (step repo s)
    step-IsSound repo s k =
        sync-IsSound env h list_containers stopped clone_dir cfg interval repo (reset repo s)
          (reset-IsSound repo s k)

    step-KeepsRepo :
        (name : Bytes) (repo : RepoDb) (s : SyncState)
        → IsSound env s
        → str_eq repo.name name ≡ false
        → KeepsRepo name s (step repo s)
    step-KeepsRepo name repo s k n =
        KeepsRepo-trans name s (reset repo s) _
          (record {
            repo = refl;
            backoff = rw (backoff_of-reset, n) refl;
            due = λ now. due-reset name repo.name now s.schedule;
          })
          (sync_repo_from_db-KeepsRepo env h list_containers cfg clone_dir interval name repo
            (reset repo s) k.fresh k.named n)

    step-Retried : (repo : RepoDb) (s : SyncState) → IsSound env s → Retried repo.name (step repo s)
    step-Retried repo s k =
        let o =
          sync_repo_from_db-SyncOutcome env h list_containers cfg clone_dir interval repo
            (reset repo s) k.fresh in
        let e : backoff_of repo.name (reset repo s).schedule ≡ fresh =
          rw (backoff_of-reset, str_eq_refl) refl in
        record {
          repo = o.repo;
          stored = o.stored;
          recorded =
              subst
                (λ b. IsRecorded repo.name b o.repo (backoff_of repo.name (step repo s).schedule)) e
                o.recorded;
        }

    sync_triggered-KeepsRepo :
        (name : Bytes) (repos : List RepoDb) (s : SyncState)
        → IsSound env s
        → All (λ r. str_eq r.name name ≡ false) repos
        → KeepsRepo name s (
            sync_triggered env h list_containers stopped clone_dir created others cfg interval repos
              s)
    unfolding sync_triggered
    sync_triggered-KeepsRepo name [] s k n = record {
      repo = refl;
      backoff = refl;
      due = λ now. refl;
    }
    sync_triggered-KeepsRepo name (repo ∷ repos) s k (n, ns) =
        KeepsRepo-trans name s (step repo s) _ (step-KeepsRepo name repo s k n)
          (sync_triggered-KeepsRepo name repos (step repo s) (step-IsSound repo s k) ns)

    keep-All :
        (p : RepoDb → Bool) (name : Bytes) (repos : List RepoDb)
        → All (λ r. str_eq r.name name ≡ false) repos
        → All (λ r. str_eq r.name name ≡ false) (keep p repos)
    keep-All p name [] n = tt
    keep-All p name (repo ∷ repos) (n, ns) = elim (Bool-cases (p repo)) [
      | inl e ↦ rw e (n, keep-All p name repos ns)
      | inr e ↦ rw e (keep-All p name repos ns)
    ]

    abbrev triggered : List RepoDb → List Bytes → SyncState → SyncState
    triggered repos names s =
        sync_triggered env h list_containers stopped clone_dir created others cfg interval
          (to_sync repos names) s

    Retried-kept :
        (name : Bytes) (s t : SyncState) → Retried name s → KeepsRepo name s t → Retried name t
    Retried-kept name s t r k = record {
      repo = r.repo;
      stored = k.repo ∙ r.stored;
      recorded = rw k.backoff r.recorded;
    }

    Answered-after :
        (name : Bytes) (names : List Bytes) (r s t : SyncState)
        → KeepsRepo name r s
        → Answered name names s t
        → Answered name names r t
    Answered-after name names r s t k (asked e a) = asked e a
    Answered-after name names r s t k (not_asked e a) = not_asked e (KeepsRepo-trans name r s t k a)

    triggered-Answered :
        (names : List Bytes) (xs : List RepoDb) (repo : RepoDb) (ys : List RepoDb) (s : SyncState)
        → IsSound env s
        → All (λ r. str_eq r.name repo.name ≡ false) xs
        → All (λ r. str_eq r.name repo.name ≡ false) ys
        → Answered repo.name names s (triggered (xs ++ repo ∷ ys) names s)
    unfolding sync_triggered to_sync
    triggered-Answered names [] repo ys s k n m =
        let p : RepoDb → Bool = λ r. any (str_eq r.name) names in
        let rest = keep-All p repo.name ys m in
        elim (Bool-cases (any (str_eq repo.name) names)) [
          | inl e ↦
              rw (e, sync_triggered)
                (asked e (
                  Retried-kept repo.name (step repo s) _ (step-Retried repo s k) (
                    sync_triggered-KeepsRepo repo.name (keep p ys) (step repo s)
                      (step-IsSound repo s k) rest)))
          | inr e ↦
              rw (e, sync_triggered)
                (not_asked e (sync_triggered-KeepsRepo repo.name (keep p ys) s k rest))
        ]
    triggered-Answered names (x ∷ xs) repo ys s k (n, ns) m =
        elim (Bool-cases (any (str_eq x.name) names)) [
          | inl e ↦
              rw (e, sync_triggered)
                (Answered-after repo.name names s (step x s) _ (step-KeepsRepo repo.name x s k n)
                  (triggered-Answered names xs repo ys (step x s) (step-IsSound x s k) ns m))
          | inr e ↦ rw (e, sync_triggered) (triggered-Answered names xs repo ys s k ns m)
        ]

  Answered-kept :
      (name : Bytes) (names : List Bytes) (s t u : SyncState)
      → Answered name names s t
      → KeepsRepo name t u
      → Answered name names s u
  Answered-kept name names s t u (asked e r) k =
      asked e
        (record { repo = r.repo; stored = k.repo ∙ r.stored; recorded = rw k.backoff r.recorded })
  Answered-kept name names s t u (not_asked e a) k = not_asked e (KeepsRepo-trans name s t u a k)

  -- The triggers of some names, of which the list of the iteration holds one repository under its
  -- name: where it was named, it is synced and its outcome recorded as after a fresh retry state,
  -- whether it is enabled, suspended or due or not; otherwise it is left as it was.
  pub handle_triggers-Answered :
      (plan : Plan) (names : List Bytes) (xs : List RepoDb) (repo : RepoDb) (ys : List RepoDb)
      (m : LoopState)
      → plan.repos ≡ xs ++ repo ∷ ys
      → IsSound env m.sync
      → All (λ r. str_eq r.name repo.name ≡ false) xs
      → All (λ r. str_eq r.name repo.name ≡ false) ys
      → Answered repo.name names m.sync
          (handle_triggers env h list_containers stopped clone_dir created others plan names m).sync
  unfolding handle_triggers
  handle_triggers-Answered plan names xs repo ys m e k n o =
      let (cfg, db) = load_infisical env.decrypt m.sync.db in
      let start = with_db db m.sync in
      let end = triggered cfg plan.interval plan.repos names start in
      let behind = record m { sync = end } in
      let keeps =
        refresh-RefreshKeeps env h list_containers stopped clone_dir created others behind in
      let sound : IsSound env start = record {
        fresh = k.fresh;
        named = k.named;
        settled = k.settled;
      } in
      let same : KeepsRepo repo.name m.sync start = record {
        repo = refl;
        backoff = refl;
        due = λ now. refl;
      } in
      let a = Answered-after cfg plan.interval repo.name names m.sync start _ same (
        subst (λ rs. Answered repo.name names start (triggered cfg plan.interval rs names start))
          (sym e) (triggered-Answered cfg plan.interval names xs repo ys start sound n o)) in
      Answered-kept repo.name names m.sync end _ a
        (record { repo = keeps.repos repo.name; backoff = refl; due = λ now. refl })
