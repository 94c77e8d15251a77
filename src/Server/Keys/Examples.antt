-- ===== src/Server/Keys/Examples.antt =====
-- Tests of the handlers of SSH keys.
use stackd.Base.{◌≡◌, refl, Option, some, [], ◌++◌, Bytes, bytes, text, pos, ℤ}
use stackd.Db.{Database}
use stackd.Db.Keys.{create_ssh_key, list_ssh_keys}
use stackd.Server.Http.{value}
use stackd.Server.Keys.{
  KeyRequest, ParsedKey, public_key, check_key, store_key, handle_create_ssh_key,
}

abbrev parse_key : Bytes → ParsedKey
parse_key s = public_key (bytes "ssh-ed25519 AAAA")

abbrev encrypt : Bytes → Option Bytes
encrypt s = some (bytes "enc:" ++ s)

abbrev parse_time : Bytes → ℤ
parse_time s = pos 0

abbrev request : KeyRequest
request = record { name = bytes "deploy"; private_key = bytes "PRIVATE" }

abbrev db : Database
db = record { repos = []; ssh_keys = []; settings = []; faults = [] }

created :
    (handle_create_ssh_key parse_time parse_key encrypt
      (bytes "u1")
      (bytes "t")
      (some request)
      db).0
    ≡ record {
      status = 201;
      body = value (record {
        id = bytes "u1";
        name = bytes "deploy";
        public_key = bytes "ssh-ed25519 AAAA";
        created_at = pos 0;
      });
    }
unfolding handle_create_ssh_key check_key store_key create_ssh_key list_ssh_keys text
created = refl
