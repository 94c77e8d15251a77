-- ===== src/Main/Loop/Queue.antt =====
-- main.go and internal/server/server.go: what becomes of a sync request that was answered "queued".
use stackd.Base.{
  ℕ, ◌≤◌, ◌≡◌, ◌∙◌, sym, subst, Bool, true, false, Option, List, ◌∷◌, ◌++◌, In, All, any, length,
  Bytes, str_eq, ℤ, arith,
}
use stackd.Process.{Cmd, Host}
use stackd.State.{ContainerDetail}
use stackd.Db.{Database}
use stackd.Db.Repos.{RepoDb}
use stackd.Docker.Holder.{ClientHolder}
use stackd.Sync.Auth.{SyncEnv, SyncState}
use stackd.Server.Limiter.{RateLimiter}
use stackd.Server.Trigger.{capacity, drain}
use stackd.Server.Trigger.Laws.{after, answered_queued, queue-after, after-bounded, any-In}
use stackd.Main.Round.Laws.{IsSound}
use stackd.Main.Loop.{LoopState, triggers, with_db, make_plan, do_sync_round, handle_event, iterate}
use stackd.Main.Loop.Laws.{make_plan-IsSound, do_sync_round-IsSound}
use stackd.Main.Loop.Triggers.{Retried, Answered, asked, not_asked, handle_triggers-Answered}

asked-Retried :
    (name : Bytes) (names : List Bytes) (s t : SyncState)
    → any (str_eq name) names ≡ true
    → Answered name names s t
    → Retried name t
asked-Retried name names s t e (asked _ r) = r
asked-Retried name names s t e (not_asked f _) = absurd (ground arith)

module _ (env : SyncEnv) (h : Host)
    (list_containers : List Cmd → Bytes → Option (List ContainerDetail)) (stopped : List Cmd → Bool)
    (clone_dir : Bytes) (created : List Cmd → Option ℕ)
    (others : ℕ → Option ClientHolder → Option ClientHolder) where
  -- The list of repositories that an iteration reads at its start.
  abbrev pub listed : SyncState → List RepoDb
  listed s = (make_plan env h list_containers stopped clone_dir created others s).0.repos

  -- Whatever the sync requests since the last drain, at most 16 names wait. The iteration that drains
  -- them syncs, where the state before it is sound, from a fresh retry state each repository whose request was answered "queued" and
  -- which stands once under its name in the list that the iteration read at its start; one that is
  -- not in that list, such as a repository created since, is not covered.
  pub queued-synced :
      (start : RateLimiter) (calls : List (Bytes × ℤ)) (first : Bytes) (more : List Bytes)
      (db : Database) (xs : List RepoDb) (repo : RepoDb) (ys : List RepoDb) (m : LoopState)
      → (drain (after start calls)).0 ≡ first ∷ more
      → In repo.name (answered_queued start calls)
      → listed m.sync ≡ xs ++ repo ∷ ys
      → All (λ r. str_eq r.name repo.name ≡ false) xs
      → All (λ r. str_eq r.name repo.name ≡ false) ys
      → IsSound env m.sync
      → (length (after start calls).queue ≤ capacity)
        × Retried repo.name
            (iterate env h list_containers stopped clone_dir created others
              (triggers first more db)
              m).sync
  unfolding iterate handle_event drain
  queued-synced start calls first more db xs repo ys m d i e n o k =
      let (plan, s) = make_plan env h list_containers stopped clone_dir created others m.sync in
      let synced =
        do_sync_round env h list_containers stopped clone_dir created others plan
          (record m { sync = s }) in
      let sound =
        do_sync_round-IsSound env h list_containers stopped clone_dir created others plan
          (record m { sync = s })
          (make_plan-IsSound env h list_containers stopped clone_dir created others m.sync k) in
      let ready : LoopState = record synced { sync = with_db db synced.sync } in
      let named : any (str_eq repo.name) (first ∷ more) ≡ true =
        any-In start repo.name (first ∷ more)
          (subst (In repo.name) (sym (queue-after start calls) ∙ d) i) in
      (
        after-bounded start calls,
        asked-Retried repo.name (first ∷ more) ready.sync _ named (
            handle_triggers-Answered env h list_containers stopped clone_dir created others plan
              (first ∷ more) xs repo ys ready e
              (record { fresh = sound.fresh; named = sound.named; settled = sound.settled }) n o),
      )
