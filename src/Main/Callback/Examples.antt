-- ===== src/Main/Callback/Examples.antt =====
-- Tests of the callback, for a stack that the store does not know and for one that it does.
use stackd.Base.{◌≡◌, refl, bytes, lookup}
use stackd.State.Store.{new, get_stack}
use stackd.Sync.Repo.Examples.{state, host, list_containers, env}
use stackd.Main.Round.Examples.{never, state-IsSound}
use stackd.Main.Loop.Examples.{created, alone, start}
use stackd.Main.Callback.{callback}
use stackd.Main.Callback.Laws.{IsLeftSound, callback-IsSound}

unknown :
    callback env host list_containers never
      (bytes "/data")
      created
      alone
      (bytes "infra")
      (bytes "web")
      start
    ≡ start
unfolding callback get_stack new lookup
unknown = refl

callback-IsSound_example :
    IsLeftSound env host list_containers never
      (bytes "/data")
      created
      alone
      state
      (callback env host list_containers never
        (bytes "/data")
        created
        alone
        (bytes "infra")
        (bytes "web")
        start).sync
callback-IsSound_example =
    callback-IsSound env host list_containers never (bytes "/data") created alone (bytes "infra")
      (bytes "web") start state-IsSound
