-- ===== src/Server/Keys.antt =====
-- internal/server/settings_handlers.go: the handlers of the SSH keys.
pub mod Laws
mod Examples
use stackd.Base.{
  ◌||◌, Bool, true, false, Option, none, some, List, [], ◌∷◌, ◌++◌, map, if◌then◌else◌, Bytes,
  bytes, is_empty, str_eq, ℤ,
}
use stackd.Db.{DbError, Result, ok, err, Database}
use stackd.Db.Keys.{SshKeyDb, list_ssh_keys, create_ssh_key, delete_ssh_key}
use stackd.Db.Repos.{first}
use stackd.Server.Http.{Body, message, done, value, Response, json_ok, json_error, Step, halt, go}

-- sshKeyRequest
pub record KeyRequest : Type 0 where
  pub name : Bytes
  pub private_key : Bytes

-- sshKeyResponse
pub record KeyResponse : Type 0 where
  pub id : Bytes
  pub name : Bytes
  pub public_key : Bytes
  pub created_at : ℤ

-- What gossh.ParsePrivateKey gives: an error's text, or the public key as MarshalAuthorizedKey
-- writes it.
pub data ParsedKey : Type 0 where
  bad_key : Bytes → ParsedKey
  public_key : Bytes → ParsedKey

abbrev pub to_response : SshKeyDb → KeyResponse
to_response k = record {
  id = k.id;
  name = k.name;
  public_key = k.public_key;
  created_at = k.created_at;
}

abbrev listed_keys : Result (List SshKeyDb) → Response (List KeyResponse)
listed_keys (err e) = json_error (message (bytes "failed to list SSH keys")) 500
listed_keys (ok keys) = json_ok (value (map to_response keys))

-- handleListSSHKeys
unfoldable pub handle_list_ssh_keys :
    (Bytes → ℤ) → Database → Response (List KeyResponse) × Database
handle_list_ssh_keys parse_time db =
    let (r, db') = list_ssh_keys parse_time db in (listed_keys r, db')

-- The loop over the keys behind the creation.
abbrev found_key : Option SshKeyDb → Body KeyResponse
found_key none = done
found_key (some k) = value (to_response k)

abbrev keys_or_none : Result (List SshKeyDb) → List SshKeyDb
keys_or_none (err e) = []
keys_or_none (ok keys) = keys

module _ (parse_time : Bytes → ℤ) (parse_key : Bytes → ParsedKey) (encrypt : Bytes → Option Bytes)
    (uuid now : Bytes) where
  -- handleCreateSSHKey behind the encryption.
  pub store_key : KeyRequest → (public enc : Bytes) → Database → Response KeyResponse × Database
  store_key req public enc db =
      let k : SshKeyDb = record {
        id = [];
        name = req.name;
        private_key_enc = enc;
        public_key = public;
        created_at = parse_time [];
      } in
      let (e, db₁) = create_ssh_key uuid now k db in
      elim e [
        | some _ ↦ (json_error (message (bytes "failed to create SSH key")) 500, db₁)
        | none ↦
            let (r, db₂) = list_ssh_keys parse_time db₁ in
            (
              record {
                status = 201;
                body =
                    found_key (first (λ (q : SshKeyDb). str_eq q.name req.name) (keys_or_none r));
              },
              db₂,
            )
      ]

  abbrev pub encrypted_key : KeyRequest → Bytes → Step KeyResponse (Bytes × Bytes)
  encrypted_key req public = elim (encrypt req.private_key) [
    | none ↦ halt (json_error (message (bytes "failed to encrypt private key")) 500)
    | some enc ↦ go (public, enc)
  ]

  -- The checks of a request, up to the encryption.
  pub check_key : KeyRequest → Step KeyResponse (Bytes × Bytes)
  check_key req =
      if is_empty req.name || is_empty req.private_key
      then halt (json_error (message (bytes "name and privateKey are required")) 400)
      else elim (parse_key req.private_key) [
        | bad_key e ↦ halt (json_error (message (bytes "invalid private key: " ++ e)) 400)
        | public_key public ↦ encrypted_key req public
      ]

  abbrev pub store_checked :
      KeyRequest → Step KeyResponse (Bytes × Bytes) → Database → Response KeyResponse × Database
  store_checked req (halt r) db = (r, db)
  store_checked req (go (public, enc)) db = store_key req public enc db

  -- handleCreateSSHKey, `none` being a body that is not decoded.
  unfoldable pub handle_create_ssh_key :
      Option KeyRequest → Database → Response KeyResponse × Database
  unfolding check_key store_key
  handle_create_ssh_key none db = (json_error (message (bytes "invalid request body")) 400, db)
  handle_create_ssh_key (some req) db = store_checked req (check_key req) db

abbrev deleted : Option DbError → Response (Unit {0})
deleted (some e) = json_error (message (bytes "failed to delete SSH key")) 500
deleted none = json_ok done

-- handleDeleteSSHKey
unfoldable pub handle_delete_ssh_key : Bytes → Database → Response (Unit {0}) × Database
handle_delete_ssh_key id db = let (e, db') = delete_ssh_key id db in (deleted e, db')
