-- ===== src/Main/Round/Laws.antt =====
-- main.go: which repositories a round syncs, and what it leaves of the others.
use stackd.Base.{
  ◌≡◌, ◌&&◌, not, refl, ◌∙◌, subst, sym, inl, inr, Bool-cases, Bool, true, false, Option, List,
  if◌then◌else◌, [], ◌∷◌, Bytes, ℤ,
}
use stackd.Process.{Cmd, Host}
use stackd.State.{ContainerDetail}
use stackd.Schedule.{should_skip_sync, due_for_sync}
use stackd.Db.Repos.{RepoDb}
use stackd.Stacks.Compose.{InfisicalConfig}
use stackd.Stacks.Apply.Laws.{AllSettled}
use stackd.Sync.Auth.{SyncEnv, SyncState}
use stackd.Sync.Auth.Laws.{IsFresh}
use stackd.Sync.Repo.Laws.{sync_repo_from_db-SyncOutcome}
use stackd.Sync.Repo.Stacks.{sync_repo_from_db-AllSettled}
use stackd.Sync.Repo.Others.{IsNamed, sync_repo_from_db-IsNamed}
use stackd.Main.Round.{sync, take_turn, sync_round}

-- What syncs rely on and keep: the path of the next temporary file is new and the file there can be
-- removed, each state of a repository has its name, and no stack is "applying".
pub record IsSound (env : SyncEnv) (s : SyncState) : Type 0 where
  pub fresh : IsFresh env s.key_files
  pub named : IsNamed s.world.store
  pub settled : AllSettled s.world.store

-- The three ends of a turn: a repository that is disabled, one that waits, one that is synced.
pub turn-cases :
    {A : Type 0} (P : A → Type 0) (enabled skip due : Bool) (s asked t : A)
    → (enabled ≡ false → P s)
    → ((enabled && (not skip && due)) ≡ false → P asked)
    → ((enabled && (not skip && due)) ≡ true → P t)
    → P (if not enabled then s else if skip then asked else if due then t else asked)
turn-cases P false skip due s asked t f g k = f refl
turn-cases P true true due s asked t f g k = g refl
turn-cases P true false true s asked t f g k = k refl
turn-cases P true false false s asked t f g k = g refl

module _ (env : SyncEnv) (h : Host)
    (list_containers : List Cmd → Bytes → Option (List ContainerDetail)) (stopped : List Cmd → Bool)
    (clone_dir : Bytes) (cfg : InfisicalConfig) (default_interval : ℤ) where
  -- The state behind shouldSkipSync.
  abbrev pub asked_state : RepoDb → SyncState → SyncState
  asked_state repo s = record s {
    schedule = (should_skip_sync repo.name (h.now s.world.trace) s.schedule).1;
  }

  pub sync-IsSound :
      (repo : RepoDb) (s : SyncState)
      → IsSound env s
      → IsSound env (sync env h list_containers stopped clone_dir cfg default_interval repo s)
  sync-IsSound repo s k = record {
    fresh =
        let o =
          sync_repo_from_db-SyncOutcome env h list_containers cfg clone_dir default_interval repo s
            k.fresh in
        subst (IsFresh env) (sym o.key_files) k.fresh;
    named =
        sync_repo_from_db-IsNamed env h list_containers cfg clone_dir default_interval repo s
          k.fresh k.named;
    settled =
        sync_repo_from_db-AllSettled env h list_containers cfg clone_dir default_interval repo s
          k.fresh k.settled;
  }

  pub take_turn-IsSound :
      (repo : RepoDb) (s : SyncState)
      → IsSound env s
      → IsSound env (take_turn env h list_containers stopped clone_dir cfg default_interval repo s)
  unfolding take_turn
  take_turn-IsSound repo s k =
      let asked = asked_state repo s in
      let still : IsSound env asked = record {
        fresh = k.fresh;
        named = k.named;
        settled = k.settled;
      } in
      turn-cases (IsSound env) repo.enabled _ _ s asked _ (λ _. k) (λ _. still)
        (λ _. sync-IsSound repo asked still)

  -- A round of syncs, whatever fails in it, wherever it is stopped, leaves no file of a key where the
  -- next temporary file is to be, each repository's state under its name, and no stack "applying".
  pub sync_round-IsSound :
      (repos : List RepoDb) (s : SyncState)
      → IsSound env s
      → IsSound env
          (sync_round env h list_containers stopped clone_dir cfg default_interval repos s).1
  unfolding sync_round
  sync_round-IsSound [] s k = k
  sync_round-IsSound (repo ∷ repos) s k = elim (Bool-cases (stopped s.world.trace)) [
    | inl e ↦ rw (e, sync_round) k
    | inr e ↦ rw (e, sync_round) (sync_round-IsSound repos _ (take_turn-IsSound repo s k))
  ]

  sync-key_files :
      (repo : RepoDb) (s : SyncState)
      → IsSound env s
      → (sync env h list_containers stopped clone_dir cfg default_interval repo s).key_files
        ≡ s.key_files
  sync-key_files repo s k =
      let o =
        sync_repo_from_db-SyncOutcome env h list_containers cfg clone_dir default_interval repo s
          k.fresh in
      o.key_files

  pub take_turn-key_files :
      (repo : RepoDb) (s : SyncState)
      → IsSound env s
      → (take_turn env h list_containers stopped clone_dir cfg default_interval repo s).key_files
        ≡ s.key_files
  unfolding take_turn
  take_turn-key_files repo s k =
      let now = h.now s.world.trace in
      let asked = asked_state repo s in
      turn-cases (λ t. t.key_files ≡ s.key_files) repo.enabled
        (should_skip_sync repo.name now s.schedule).0 (due_for_sync repo.name now asked.schedule) s
        asked (sync env h list_containers stopped clone_dir cfg default_interval repo asked)
        (λ _. refl) (λ _. refl)
        (λ _.
          sync-key_files repo asked
            (record { fresh = k.fresh; named = k.named; settled = k.settled }))

  -- A round leaves the files of keys as they were.
  pub sync_round-key_files :
      (repos : List RepoDb) (s : SyncState)
      → IsSound env s
      → (sync_round env h list_containers stopped clone_dir cfg default_interval repos
          s).1.key_files
        ≡ s.key_files
  unfolding sync_round
  sync_round-key_files [] s k = refl
  sync_round-key_files (repo ∷ repos) s k = elim (Bool-cases (stopped s.world.trace)) [
    | inl e ↦ rw (e, sync_round) refl
    | inr e ↦
        rw (e, sync_round)
          (sync_round-key_files repos _ (take_turn-IsSound repo s k) ∙ take_turn-key_files repo s k)
  ]
