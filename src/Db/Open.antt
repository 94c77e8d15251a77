-- ===== src/Db/Open.antt =====
-- internal/db/db.go: Open. The drivers, the pings and the migrations are parameters; the connection is
-- known by whether it is open.
mod Laws
mod Examples
use stackd.Base.{
  ◌||◌, Bool, true, false, Option, none, some, List, [], ◌∷◌, ◌++◌, if◌then◌else◌, Bytes, bytes,
  str_eq, trim_prefix, contains, has_prefix, drop,
}
use stackd.Db.Rebind.{Driver, sqlite, postgres}

-- What Migrate.Up gives: done, ErrNoChange, ErrDirty, or any other error.
pub data Up : Type 0 where
  done no_change dirty up_failed : Up

-- What Open calls: sql.Open and Ping by the data source, the pragma for the journal, the making of
-- the migrations, Up and Force(-1). The migrations answer by whether they were forced before.
pub record Drivers : Type 0 where
  pub open_source : Driver → Bytes → Bool
  pub set_journal : Bytes → Bool
  pub ping : Bytes → Bool
  pub new_migrate : Bytes → Bool
  pub up : (forced : Bool) → Up
  pub force : Bool

pub data OpenError : Type 0 where
  invalid_url unsupported_scheme not_opened no_journal no_ping no_migrate : OpenError
  not_migrated not_forced : OpenError

-- The result, whether a connection is open behind the call, the global driverName, and the data
-- source.
pub record Opened : Type 0 where
  pub error : Option OpenError
  pub is_open : Bool
  pub driver : Driver
  pub source : Bytes

abbrev pub refused : OpenError → Driver → Opened
refused e driver = record { error = some e; is_open = false; driver = driver; source = [] }

-- strings.Cut(s, "://"): what is before the first separator.
unfoldable pub scheme_of : Bytes → Option Bytes
scheme_of [] = none
scheme_of (c ∷ s) =
    let rest = scheme_of s in
    if has_prefix (bytes "://") (c ∷ s)
    then some []
    else elim rest [ none ↦ none | some before ↦ some (c ∷ before) ]

-- The data source of SQLite.
abbrev pub sqlite_source : Bytes → Bytes
sqlite_source url =
    let path = trim_prefix (bytes "sqlite://") url in
    if contains (bytes "?") path
    then path ++ bytes "&_pragma=busy_timeout(5000)"
    else path ++ bytes "?_pragma=busy_timeout(5000)"

module _ (d : Drivers) where
  -- The second Up, behind Force.
  abbrev pub retried : Opened → Up → Opened
  retried o Up.done = o
  retried o no_change = o
  retried o dirty = refused not_migrated o.driver
  retried o up_failed = refused not_migrated o.driver

  -- Behind the first Up.
  unfoldable pub migrated : Opened → Up → Opened
  migrated o Up.done = o
  migrated o no_change = o
  migrated o up_failed = refused not_migrated o.driver
  migrated o dirty = if d.force then retried o (d.up true) else refused not_forced o.driver

  -- From the ping on; each error closes the connection.
  unfoldable pub prepare : (url : Bytes) → Opened → Opened
  unfolding migrated
  prepare url o =
      if d.ping o.source
      then (if d.new_migrate url then migrated o (d.up false) else refused no_migrate o.driver)
      else refused no_ping o.driver

  abbrev pub connected : Driver → Bytes → Opened
  connected driver source = record {
    error = none;
    is_open = true;
    driver = driver;
    source = source;
  }

  unfoldable pub open_sqlite : Driver → Bytes → Opened
  unfolding prepare
  open_sqlite before url =
      let source = sqlite_source url in
      if d.open_source sqlite source
      then (if d.set_journal source
          then prepare url (connected sqlite source)
          else refused no_journal before)
      else refused not_opened before

  unfoldable pub open_postgres : Driver → Bytes → Opened
  unfolding prepare
  open_postgres before url =
      if d.open_source postgres url
      then prepare url (connected postgres url)
      else refused not_opened before

  -- The switch on the scheme; `before` is the driver's name until then.
  unfoldable pub open_scheme : Driver → (scheme url : Bytes) → Opened
  unfolding open_sqlite open_postgres
  open_scheme before scheme url =
      if str_eq scheme (bytes "sqlite")
      then open_sqlite before url
      else if str_eq scheme (bytes "postgres") || str_eq scheme (bytes "postgresql")
      then open_postgres before url
      else refused unsupported_scheme before

  -- Open
  unfoldable pub open_database : Driver → Bytes → Opened
  unfolding open_scheme
  open_database before url = elim (scheme_of url) [
    | none ↦ refused invalid_url before
    | some scheme ↦ open_scheme before scheme url
  ]
