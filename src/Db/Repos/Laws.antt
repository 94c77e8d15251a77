-- ===== src/Db/Repos/Laws.antt =====
-- internal/db/repo_store.go: what each statement leaves in the table, and what is read back.
use stackd.Base.{
  ◌≡◌, ◌⊎◌, inl, inr, refl, subst, ◌||◌, ◌&&◌, Bool, Bool-cases, Option-cases, false, none, some,
  List, [], ◌∷◌, ◌++◌, map, keep, any, arith, if◌then◌else◌, Bytes, ℤ, str_eq, All, All-append,
}
use stackd.Db.{failed, ok, RepoRow, Database, fails}
use stackd.Db.Repos.{
  RepoDb, scan_repo, first, list_repos, get_repo, new_row, conflicts, create_repo, set_row,
  takes_name, update_repo, delete_repo,
}

first-All :
    (P : RepoRow → Type 0) (p : RepoRow → Bool) (rows : List RepoRow) {r : RepoRow}
    → All P rows
    → first p rows ≡ some r
    → P r
first-All P p [] h e = ground arith
first-All P p (q ∷ rows) {r} (x, h) e = elim (Bool-cases (p q)) [
  | inl t ↦ subst P (ground arith) x
  | inr t ↦ first-All P p rows h (ground arith)
]

All-map_if :
    (P : RepoRow → Type 0) (p : RepoRow → Bool) (f : RepoRow → RepoRow)
    → ((q : RepoRow) → P q → P (f q))
    → (rows : List RepoRow) → All P rows
    → All P (map (λ q. if p q then f q else q) rows)
All-map_if P p f k [] h = tt
All-map_if P p f k (q ∷ rows) (x, h) = elim (Bool-cases (p q)) [
  | inl t ↦ (rw t (k q x), All-map_if P p f k rows h)
  | inr t ↦ (rw t x, All-map_if P p f k rows h)
]

All-keep :
    (P : RepoRow → Type 0) (p : RepoRow → Bool) (rows : List RepoRow)
    → All P rows
    → All P (keep p rows)
All-keep P p [] h = tt
All-keep P p (q ∷ rows) (x, h) = elim (Bool-cases (p q)) [
  | inl t ↦ rw t (x, All-keep P p rows h)
  | inr t ↦ rw t (All-keep P p rows h)
]

module _ (P : RepoRow → Type 0) (db : Database) (h : All P db.repos) where
  pub create_repo-All :
      (uuid now : Bytes) (r : RepoDb)
      → P (new_row uuid now r)
      → All P (create_repo uuid now r db).1.repos
  unfolding create_repo
  create_repo-All uuid now r x =
      elim (Bool-cases (fails db || any (conflicts (new_row uuid now r)) db.repos)) [
        | inl e ↦ rw e h
        | inr e ↦ rw e (All-append P db.repos _ h (x, tt))
      ]

  pub update_repo-All :
      (now : Bytes) (r : RepoDb)
      → ((q : RepoRow) → P q → P (set_row now r q))
      → All P (update_repo now r db).1.repos
  unfolding update_repo
  update_repo-All now r k =
      elim (Bool-cases (
        fails db
        || any (λ (q : RepoRow). str_eq q.id r.id) db.repos && any (takes_name r) db.repos)) [
          | inl e ↦ rw e h
          | inr e ↦ rw e (All-map_if P _ (set_row now r) k db.repos h)
        ]

  pub delete_repo-All : (id : Bytes) → All P (delete_repo id db).1.repos
  unfolding delete_repo
  delete_repo-All id = elim (Bool-cases (fails db)) [
    | inl e ↦ rw e h
    | inr e ↦ rw e (All-keep P _ db.repos h)
  ]

  -- What GetRepo returns is a row of the table.
  pub get_repo-All :
      (parse_time : Bytes → ℤ) (id : Bytes) {r : RepoDb}
      → (get_repo parse_time id db).0 ≡ ok r
      → (q : RepoRow) × P q × (r ≡ scan_repo parse_time q)
  unfolding get_repo
  get_repo-All parse_time id {r} e =
      let p : RepoRow → Bool = λ q. str_eq q.id id in
      elim (Option-cases (first p db.repos)) [
        | inl n ↦ ground arith
        | inr (q, f) ↦ (q, first-All P p db.repos h f, ground arith)
      ]

module _ (parse_time : Bytes → ℤ) (db : Database) where
  pub repos-get_repo : (id : Bytes) → (get_repo parse_time id db).1.repos ≡ db.repos
  unfolding get_repo
  repos-get_repo id = refl

  pub repos-list_repos : (list_repos parse_time db).1.repos ≡ db.repos
  unfolding list_repos
  repos-list_repos = refl

module _ (db : Database) where
  -- CreateRepo adds its row where none has its identifier or its name, or fails and adds nothing.
  pub create_repo-cases :
      (uuid now : Bytes) (r : RepoDb)
      → ((create_repo uuid now r db).0 ≡ none)
          × (any (conflicts (new_row uuid now r)) db.repos ≡ false)
          × ((create_repo uuid now r db).1.repos ≡ db.repos ++ new_row uuid now r ∷ [])
        ⊎ ((create_repo uuid now r db).0 ≡ some failed)
          × ((create_repo uuid now r db).1.repos ≡ db.repos)
  unfolding create_repo
  create_repo-cases uuid now r =
      elim (Bool-cases (fails db || any (conflicts (new_row uuid now r)) db.repos)) [
        | inl e ↦ inr (rw e refl, rw e refl)
        | inr e ↦ inl (rw e refl, ground arith, rw e refl)
      ]
