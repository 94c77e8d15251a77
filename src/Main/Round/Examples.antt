-- ===== src/Main/Round/Examples.antt =====
-- Tests of a round with one repository, which was never synced.
use stackd.Base.{refl, false, Bool, List, [], ◌∷◌, arith, bytes, pos, lookup}
use stackd.Process.{Cmd}
use stackd.State.Store.{new, get_repo}
use stackd.Sync.Repo.Others.{IsNamed}
use stackd.Sync.Repo.Examples.{
  host, list_containers, config, env, repo, state, env-IsFresh, no_stacks-AllSettled,
}
use stackd.Main.Round.{sync_round}
use stackd.Main.Round.Laws.{IsSound}
use stackd.Main.Round.Turns.{Turn, sync_round-Turn}

abbrev pub never : List Cmd → Bool
never _ = false

new-IsNamed : IsNamed new
unfolding new get_repo lookup
new-IsNamed name r e = ground arith

pub state-IsSound : IsSound env state
state-IsSound = record { fresh = env-IsFresh; named = new-IsNamed; settled = no_stacks-AllSettled }

sync_round-Turn_example :
    Turn env host list_containers never
      (bytes "/data")
      config
      (pos 60)
      repo
      (pos 100)
      state
      (sync_round env host list_containers never
        (bytes "/data")
        config
        (pos 60)
        (repo ∷ [])
        state).1
sync_round-Turn_example =
    sync_round-Turn env host list_containers never (bytes "/data") config (pos 60) (λ _. refl) []
      repo [] state state-IsSound tt tt
