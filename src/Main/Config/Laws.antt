-- ===== src/Main/Config/Laws.antt =====
-- main.go: the default interval is what the settings have.
use stackd.Base.{
  ℕ, ◌∷◌, [], ◌*◌, ◌<◌, ◌^◌, ◌≡◌, refl, ap, inl, inr, ◌∙◌, false, none, some, arith, Bytes, bytes,
  decimal, atoi, atoi-decimal, pos, mul_i64_pos, str_eq_refl,
}
use stackd.Schedule.{second}
use stackd.Db.{Database, fails}
use stackd.Db.Settings.{set_setting}
use stackd.Db.Settings.Laws.{stored-set_setting, get_setting-stored}
use stackd.Server.Settings.{value_or_empty}
use stackd.Main.Config.{load_default_interval, interval_of}

abbrev key : Bytes
key = bytes "default_sync_interval"

interval_of-eq :
    (v : Bytes) (n : ℕ)
    → 0 < n
    → n * second < 2 ^ 63
    → atoi v ≡ some (pos n)
    → interval_of v ≡ pos (n * second)
unfolding atoi
interval_of-eq [] n p l e = ground arith
interval_of-eq (c ∷ v) n p l e = rw e (ground (arith, mul_i64_pos n second l))

-- A positive number of seconds that was stored as the default interval is loaded as that number of
-- nanoseconds, as long as these stay below 2^63 and the read does not fail.
pub load_default_interval-set_setting :
    (now : Bytes) (n : ℕ) (db : Database)
    → 0 < n
    → n * second < 2 ^ 63
    → (set_setting now (bytes "default_sync_interval") (decimal n) db).0 ≡ none
    → fails (set_setting now (bytes "default_sync_interval") (decimal n) db).1 ≡ false
    → (load_default_interval (set_setting now (bytes "default_sync_interval") (decimal n) db).1).0
      ≡ pos (n * second)
unfolding load_default_interval
load_default_interval-set_setting now n db p l e f =
    let small : n < 2 ^ 63 = omega arith in
    elim (stored-set_setting now key (decimal n) key db) [
      | inl (_, s) ↦
          let v = s ∙ rw str_eq_refl refl in
          let (b, g) = get_setting-stored key (set_setting now key (decimal n) db).1 f v in
          ap (λ r. interval_of (value_or_empty r)) g
          ∙ interval_of-eq (decimal n) n p l (atoi-decimal n small)
      | inr (g, _) ↦ ground arith
    ]
