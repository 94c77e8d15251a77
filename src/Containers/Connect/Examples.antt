-- ===== src/Containers/Connect/Examples.antt =====
-- Tests of a reconnection that another goroutine wins.
use stackd.Base.{ℕ, zero, suc, ◌≡◌, refl, Option, none, some}
use stackd.Docker.Holder.{ClientHolder, get, set, compare_and_swap}
use stackd.Containers.Connect.{publish, connect}
use stackd.Containers.Connect.Laws.{IsPublished, connect-IsPublished}

abbrev empty : Option ClientHolder
empty = some (record { client = none })

-- The other goroutine installs its client before the exchange and does nothing behind it.
abbrev winner : ℕ → Option ClientHolder → Option ClientHolder
winner zero h = set (some 1) h
winner (suc n) h = h

lost_race : (connect (some 2) winner empty).closed ≡ some 2
unfolding connect publish set get compare_and_swap
lost_race = refl

connect-IsPublished_example :
    IsPublished 2 (winner 1) (winner 0 empty) (connect (some 2) winner empty)
connect-IsPublished_example = connect-IsPublished 2 winner
