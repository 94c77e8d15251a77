-- ===== src/Db/Rebind/Examples.antt =====
-- Tests of the placeholders.
use stackd.Base.{◌≡◌, refl, [], ◌∷◌, List, Bytes, bytes, text, join, arith, decimal, decimal_fuel}
use stackd.Db.Rebind.{sqlite, postgres, number_from, rebind}
use stackd.Db.Rebind.Laws.{weave, rebind-weave}

abbrev pieces : List Bytes
pieces = bytes "a=" ∷ bytes " OR b=" ∷ [] ∷ []

numbered : rebind postgres (bytes "a=? OR b=?") ≡ bytes "a=$1 OR b=$2"
unfolding rebind number_from decimal decimal_fuel text
numbered = refl

rebind-weave_example :
    (rebind postgres (join (bytes "?") pieces) ≡ weave 1 pieces)
    × (rebind sqlite (join (bytes "?") pieces) ≡ join (bytes "?") pieces)
rebind-weave_example = rebind-weave pieces (ground arith)
