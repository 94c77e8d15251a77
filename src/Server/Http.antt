-- ===== src/Server/Http.antt =====
-- internal/server/settings_handlers.go: jsonOK and jsonError, and the answers of handlers as values.
-- Headers and the JSON text are left out: a body is the value that is encoded.
use stackd.Base.{ℕ, Bytes, Option, none, some}
use stackd.Git.Validate.{Error}

-- What a handler writes: {"error": msg}, the message of a rejected name, {"ok": true}, or a value.
pub data Body (A : Type 0) : Type 0 where
  message : Bytes → Body A
  rejected : Error → Body A
  done : Body A
  value : A → Body A

pub record Response (A : Type 0) : Type 0 where
  pub status : ℕ
  pub body : Body A

abbrev pub json_ok : {A : Type 0} → Body A → Response A
json_ok b = record { status = 200; body = b }

abbrev pub json_error : {A : Type 0} → Body A → ℕ → Response A
json_error b code = record { status = code; body = b }

-- A step of a handler answers at once or goes on.
pub data Step (A B : Type 0) : Type 0 where
  halt : Response A → Step A B
  go : B → Step A B

infixl 5 ◌>>=◌ ◌>>◌
abbrev pub ◌>>=◌ : {A B C : Type 0} → Step A B → (B → Step A C) → Step A C
halt r >>= f = halt r
go b >>= f = f b

abbrev pub ◌>>◌ : {A C : Type 0} → Step A (Unit {0}) → Step A C → Step A C
m >> k = m >>= λ _. k

-- `if err := check; err != nil { jsonError(w, err.Error(), 400); return }`
abbrev pub require : {A : Type 0} → Option Error → Step A (Unit {0})
require none = go tt
require (some e) = halt (json_error (rejected e) 400)
