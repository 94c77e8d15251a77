-- ===== src/Server/Apply/Examples.antt =====
-- Tests of the applies.
use stackd.Base.{◌≡◌, refl, true, [], bytes, text, lookup, insert}
use stackd.State.{no_stack}
use stackd.State.Store.{Store, new, update_stack, get_stack}
use stackd.Server.Apply.{Applies, already_applying, handle_apply_stack, start}
use stackd.Server.Apply.Laws.{request, Reachable, initial, step, IsExclusive, Reachable-IsExclusive}

abbrev store : Store
store = update_stack (record no_stack { name = bytes "web"; repo_name = bytes "infra" }) new

abbrev idle : Applies
idle = record { applying = []; running = [] }

abbrev busy : Applies
busy = (handle_apply_stack true (bytes "infra") (bytes "web") store idle).1

busy-Reachable : Reachable busy
busy-Reachable = step initial (request true (bytes "infra") (bytes "web") store idle)

second_click :
    (handle_apply_stack true (bytes "infra") (bytes "web") store busy).0 ≡ already_applying
unfolding handle_apply_stack start get_stack update_stack new lookup insert text
second_click = refl

Reachable-IsExclusive_example : IsExclusive busy
Reachable-IsExclusive_example = Reachable-IsExclusive busy busy-Reachable
