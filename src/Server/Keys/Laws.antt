-- ===== src/Server/Keys/Laws.antt =====
-- internal/server/settings_handlers.go: what the creation of a key leaves.
use stackd.Base.{
  ◌≡◌, ap, ◌⊎◌, inl, inr, refl, ◌||◌, Bool-cases, Option-cases, true, false, Option, none, some, [],
  ◌∷◌, ◌++◌, arith, any, Bytes, is_empty, ℤ,
}
use stackd.Db.{DbError, KeyRow, Database, fails, after_statement}
use stackd.Db.Keys.{SshKeyDb, new_key_row, key_conflicts, create_ssh_key, list_ssh_keys}
use stackd.Server.Http.{Response, Step, halt, go}
use stackd.Server.Keys.{
  KeyRequest, KeyResponse, ParsedKey, bad_key, public_key, encrypted_key, check_key, store_key,
  store_checked, handle_create_ssh_key,
}

-- The row of a new key: the request's name, a public key that was parsed from its private key, which
-- is stored encrypted; no row had its identifier or its name.
pub record IsNewKey (parse_key : Bytes → ParsedKey) (encrypt : Bytes → Option Bytes)
    (req : KeyRequest) (db : Database) (row : KeyRow) : Type 0 where
  pub name : row.name ≡ req.name
  pub public : parse_key req.private_key ≡ public_key row.public_key
  pub enc : encrypt req.private_key ≡ some row.private_key_enc
  pub unique : any (key_conflicts row) db.ssh_keys ≡ false

-- The ends of a creation: a new row and 201, or an error and the rows as they were.
pub data KeyOutcome (parse_key : Bytes → ParsedKey) (encrypt : Bytes → Option Bytes)
    (req : KeyRequest) (db : Database) (r : Response KeyResponse) (after : Database) : Type 0 where
  created :
      (row : KeyRow)
      → r.status ≡ 201
      → after.ssh_keys ≡ db.ssh_keys ++ row ∷ []
      → IsNewKey parse_key encrypt req db row
      → KeyOutcome parse_key encrypt req db r after
  rejected :
      (r.status ≡ 400) ⊎ (r.status ≡ 500)
      → after.ssh_keys ≡ db.ssh_keys
      → KeyOutcome parse_key encrypt req db r after

module _ (parse_time : Bytes → ℤ) (parse_key : Bytes → ParsedKey) (encrypt : Bytes → Option Bytes)
    (uuid now : Bytes) where
  -- What the checks gave.
  record IsChecked (req : KeyRequest) (public enc : Bytes) : Type 0 where
    parsed : parse_key req.private_key ≡ public_key public
    encrypted : encrypt req.private_key ≡ some enc

  ParsedKey-cases :
      (p : ParsedKey) → ((e : Bytes) × (p ≡ bad_key e)) ⊎ ((k : Bytes) × (p ≡ public_key k))
  ParsedKey-cases (bad_key e) = inl (e, refl)
  ParsedKey-cases (public_key k) = inr (k, refl)

  data Checked (req : KeyRequest) : Step KeyResponse (Bytes × Bytes) → Type 0 where
    stopped :
        (r : Response KeyResponse) → (r.status ≡ 400) ⊎ (r.status ≡ 500) → Checked req (halt r)
    passed : (public enc : Bytes) → IsChecked req public enc → Checked req (go (public, enc))

  check_key-Checked :
      (req : KeyRequest) → Checked req (check_key parse_time parse_key encrypt uuid now req)
  unfolding check_key
  check_key-Checked req = elim (Bool-cases (is_empty req.name || is_empty req.private_key)) [
    | inl e ↦ rw (e, check_key) (stopped _ (inl refl))
    | inr e ↦ elim (ParsedKey-cases (parse_key req.private_key)) [
      | inl (x, p) ↦ rw (e, check_key) (rw p (stopped _ (inl refl)))
      | inr (k, p) ↦ elim (Option-cases (encrypt req.private_key)) [
        | inl n ↦ rw (e, check_key) (rw p (rw (n, encrypted_key) (stopped _ (inr refl))))
        | inr (enc, n) ↦
            rw (e, check_key)
              (rw p (rw (n, encrypted_key) (passed k enc (record { parsed = p; encrypted = n }))))
      ]
    ]
  ]

  create_ssh_key-cases :
      (k : SshKeyDb) (db : Database)
      → let row = new_key_row uuid now k in
        (((fails db || any (key_conflicts row) db.ssh_keys) ≡ true)
          × (create_ssh_key uuid now k db ≡ (some DbError.failed, after_statement db)))
        ⊎ (((fails db || any (key_conflicts row) db.ssh_keys) ≡ false)
            × (create_ssh_key uuid now k db
                ≡ (none, record (after_statement db) { ssh_keys = db.ssh_keys ++ row ∷ [] })))
  unfolding create_ssh_key
  create_ssh_key-cases k db =
      elim (Bool-cases (fails db || any (key_conflicts (new_key_row uuid now k)) db.ssh_keys)) [
        | inl e ↦ inl (e, rw (e, create_ssh_key) refl)
        | inr e ↦ inr (e, rw (e, create_ssh_key) refl)
      ]

  store_key-KeyOutcome :
      (req : KeyRequest) (public enc : Bytes) (db : Database)
      → IsChecked req public enc
      → KeyOutcome parse_key encrypt req db
          (store_key parse_time parse_key encrypt uuid now req public enc db).0
          (store_key parse_time parse_key encrypt uuid now req public enc db).1
  unfolding store_key list_ssh_keys
  store_key-KeyOutcome req public enc db c =
      let k : SshKeyDb = record {
        id = [];
        name = req.name;
        private_key_enc = enc;
        public_key = public;
        created_at = parse_time [];
      } in
      elim (create_ssh_key-cases k db) [
        | inl (e, q) ↦ rw (q, store_key) (rejected (inr refl) (ap (λ r. r.1.ssh_keys) q))
        | inr (e, q) ↦
            rw (q, store_key)
              (created (new_key_row uuid now k) refl (ap (λ r. r.1.ssh_keys) q) (record {
                name = refl;
                public = c.parsed;
                enc = c.encrypted;
                unique = ground arith;
              }))
      ]

  store_checked-KeyOutcome :
      (req : KeyRequest) (st : Step KeyResponse (Bytes × Bytes)) (db : Database)
      → Checked req st
      → KeyOutcome parse_key encrypt req db
          (store_checked parse_time parse_key encrypt uuid now req st db).0
          (store_checked parse_time parse_key encrypt uuid now req st db).1
  store_checked-KeyOutcome req _ db (stopped r s) = rejected s refl
  store_checked-KeyOutcome req _ db (passed public enc c) = store_key-KeyOutcome req public enc db c

  -- A creation of an SSH key answers 201 and adds one row, with the request's name, the public key
  -- of its private key, and that key encrypted, where no row had the identifier or the name; or it
  -- answers 400 or 500 and leaves the rows as they were.
  pub handle_create_ssh_key-KeyOutcome :
      (req : KeyRequest) (db : Database)
      → KeyOutcome parse_key encrypt req db
          (handle_create_ssh_key parse_time parse_key encrypt uuid now (some req) db).0
          (handle_create_ssh_key parse_time parse_key encrypt uuid now (some req) db).1
  unfolding handle_create_ssh_key
  handle_create_ssh_key-KeyOutcome req db =
      store_checked-KeyOutcome req _ db (check_key-Checked req)
