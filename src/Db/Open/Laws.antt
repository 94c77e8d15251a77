-- ===== src/Db/Open/Laws.antt =====
-- internal/db/db.go: what Open leaves open, and when it succeeds.
use stackd.Base.{
  ◌≡◌, ◌⊎◌, ◌||◌, if◌then◌else◌, inl, inr, refl, ap, Bool-cases, Option-cases, Bool, true, false,
  none, some, Bytes, bytes, str_eq,
}
use stackd.Db.Rebind.{Driver, sqlite, postgres}
use stackd.Db.Open.{
  Up, no_change, dirty, up_failed, Drivers, OpenError, not_migrated, not_forced, not_opened,
  no_journal, no_ping, no_migrate, invalid_url, unsupported_scheme, refused, retried, connected,
  Opened, scheme_of, sqlite_source, migrated, prepare, open_sqlite, open_postgres, open_scheme,
  open_database,
}

-- The last answer of the migrations that Open asked for: no migration is left to be made.
abbrev pub is_settled : Up → Bool
is_settled Up.done = true
is_settled no_change = true
is_settled dirty = false
is_settled up_failed = false

abbrev pub UpToDate : Drivers → Type 0
UpToDate d =
    (is_settled (d.up false) ≡ true) ⊎ ((d.up false ≡ dirty) × (is_settled (d.up true) ≡ true))

-- The ends of Open: an error with no connection left open, or a connection to a database that
-- answers, with every migration made.
pub data OpenOutcome (d : Drivers) (o : Opened) : Type 0 where
  fails : (e : OpenError) → o.error ≡ some e → o.is_open ≡ false → OpenOutcome d o
  opens :
      o.error ≡ none
      → o.is_open ≡ true
      → d.open_source o.driver o.source ≡ true
      → d.ping o.source ≡ true
      → UpToDate d
      → OpenOutcome d o

Up-cases : (u : Up) → (is_settled u ≡ true) ⊎ ((u ≡ dirty) ⊎ (u ≡ up_failed))
Up-cases Up.done = inl refl
Up-cases no_change = inl refl
Up-cases dirty = inr (inl refl)
Up-cases up_failed = inr (inr refl)

module _ (d : Drivers) where
  -- A connection behind the ping.
  record IsConnected (o : Opened) : Type 0 where
    error : o.error ≡ none
    is_open : o.is_open ≡ true
    source : d.open_source o.driver o.source ≡ true
    ping : d.ping o.source ≡ true

  kept : (o : Opened) → IsConnected o → UpToDate d → OpenOutcome d o
  kept o c u = opens c.error c.is_open c.source c.ping u

  fails_with : (e : OpenError) → (v : Driver) → OpenOutcome d (refused e v)
  fails_with e v = fails e refl refl

  retried-OpenOutcome :
      (o : Opened)
      → IsConnected o
      → d.up false ≡ dirty
      → (u : Up) → d.up true ≡ u
      → OpenOutcome d (retried d o u)
  retried-OpenOutcome o c was Up.done e = kept o c (inr (was, ap is_settled e))
  retried-OpenOutcome o c was no_change e = kept o c (inr (was, ap is_settled e))
  retried-OpenOutcome o c was dirty e = fails_with not_migrated o.driver
  retried-OpenOutcome o c was up_failed e = fails_with not_migrated o.driver

  forced-OpenOutcome :
      (o : Opened)
      → IsConnected o
      → d.up false ≡ dirty
      → (forced : Bool)
      → OpenOutcome d (if forced then retried d o (d.up true) else refused not_forced o.driver)
  forced-OpenOutcome o c was true = retried-OpenOutcome o c was (d.up true) refl
  forced-OpenOutcome o c was false = fails_with not_forced o.driver

  migrated-OpenOutcome :
      (o : Opened) → IsConnected o → (u : Up) → d.up false ≡ u → OpenOutcome d (migrated d o u)
  unfolding migrated
  migrated-OpenOutcome o c Up.done e = kept o c (inl (ap is_settled e))
  migrated-OpenOutcome o c no_change e = kept o c (inl (ap is_settled e))
  migrated-OpenOutcome o c dirty e = forced-OpenOutcome o c e d.force
  migrated-OpenOutcome o c up_failed e = fails_with not_migrated o.driver

  -- A connection that is opened and not yet known to answer.
  record IsOpened (o : Opened) : Type 0 where
    error : o.error ≡ none
    is_open : o.is_open ≡ true
    source : d.open_source o.driver o.source ≡ true

  prepare-OpenOutcome : (url : Bytes) → (o : Opened) → IsOpened o → OpenOutcome d (prepare d url o)
  unfolding prepare
  prepare-OpenOutcome url o c = elim (Bool-cases (d.ping o.source)) [
    | inr e ↦ rw e (fails_with no_ping o.driver)
    | inl e ↦ elim (Bool-cases (d.new_migrate url)) [
      | inr e2 ↦ rw (e, e2) (fails_with no_migrate o.driver)
      | inl e2 ↦
          rw (e, e2)
            (migrated-OpenOutcome o
              (record { error = c.error; is_open = c.is_open; source = c.source; ping = e })
              (d.up false) refl)
    ]
  ]

  open_sqlite-OpenOutcome : (v : Driver) → (url : Bytes) → OpenOutcome d (open_sqlite d v url)
  unfolding open_sqlite
  open_sqlite-OpenOutcome v url =
      let source = sqlite_source url in
      elim (Bool-cases (d.open_source sqlite source)) [
        | inr e ↦ rw e (fails_with not_opened v)
        | inl e ↦ elim (Bool-cases (d.set_journal source)) [
          | inr e2 ↦ rw (e, e2) (fails_with no_journal v)
          | inl e2 ↦
              rw (e, e2)
                (prepare-OpenOutcome url (connected d sqlite source)
                  (record { error = refl; is_open = refl; source = e }))
        ]
      ]

  open_postgres-OpenOutcome : (v : Driver) → (url : Bytes) → OpenOutcome d (open_postgres d v url)
  unfolding open_postgres
  open_postgres-OpenOutcome v url = elim (Bool-cases (d.open_source postgres url)) [
    | inr e ↦ rw e (fails_with not_opened v)
    | inl e ↦ rw e (
        prepare-OpenOutcome url (connected d postgres url)
          (record { error = refl; is_open = refl; source = e }))
  ]

  open_scheme-OpenOutcome :
      (v : Driver) → (scheme url : Bytes) → OpenOutcome d (open_scheme d v scheme url)
  unfolding open_scheme
  open_scheme-OpenOutcome v scheme url = elim (Bool-cases (str_eq scheme (bytes "sqlite"))) [
    | inl e ↦ rw e (open_sqlite-OpenOutcome v url)
    | inr e ↦
        elim (Bool-cases (str_eq scheme (bytes "postgres") || str_eq scheme (bytes "postgresql"))) [
          | inl e2 ↦ rw (e, e2) (open_postgres-OpenOutcome v url)
          | inr e2 ↦ rw (e, e2) (fails_with unsupported_scheme v)
        ]
  ]

  -- Open ends in an error and leaves no connection open, or it succeeds, and then the connection
  -- answers a ping and no migration is left to be made: the last Up succeeded or had nothing to do.
  pub open_database-OpenOutcome :
      (v : Driver) → (url : Bytes) → OpenOutcome d (open_database d v url)
  unfolding open_database
  open_database-OpenOutcome v url = elim (Option-cases (scheme_of url)) [
    | inl e ↦ rw (e, open_database) (fails_with invalid_url v)
    | inr (s, e) ↦ rw (e, open_database) (open_scheme-OpenOutcome v s url)
  ]
