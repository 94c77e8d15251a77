-- ===== src/State.antt =====
-- internal/state/state.go: what the dashboard shows, the store that holds it, and the activity bus.
pub mod Store
pub mod Bus
use stackd.Base.{Bool, List, Bytes, ℤ, pos, bytes, []}

-- SyncStatus; `unset` is the zero value "".
pub data SyncStatus : Type 0 where
  unset ok error syncing : SyncStatus

-- ApplyStatus, in the same way.
pub data ApplyStatus : Type 0 where
  unset ok error applying : ApplyStatus

-- A time.Time is the integer of nanoseconds since the zero time.
pub record RepoState : Type 0 where
  pub name : Bytes
  pub last_sync : ℤ
  pub last_sha : Bytes
  pub status : SyncStatus
  pub last_error : Bytes

pub record ContainerDetail : Type 0 where
  pub id : Bytes
  pub name : Bytes
  pub image : Bytes
  pub status : Bytes
  pub started_at : ℤ
  pub env : List Bytes
  pub ports : List Bytes

pub record StackState : Type 0 where
  pub name : Bytes
  pub repo_name : Bytes
  pub stack_dir : Bytes
  pub last_apply : ℤ
  pub status : ApplyStatus
  pub last_output : Bytes
  pub last_error : Bytes
  pub containers : List ContainerDetail
  pub infisical_mode : Bytes

pub record InfisicalState : Type 0 where
  pub enabled : Bool
  pub env : Bytes

pub record FullState : Type 0 where
  pub repos : List RepoState
  pub stacks : List StackState
  pub infisical : InfisicalState

-- RepoState{}
abbrev pub no_repo : RepoState
no_repo = record {
  name = [];
  last_sync = pos 0;
  last_sha = [];
  status = SyncStatus.unset;
  last_error = [];
}

-- StackState{}
abbrev pub no_stack : StackState
no_stack = record {
  name = [];
  repo_name = [];
  stack_dir = [];
  last_apply = pos 0;
  status = ApplyStatus.unset;
  last_output = [];
  last_error = [];
  containers = [];
  infisical_mode = [];
}

-- ActivityEvent
pub record ActivityEvent : Type 0 where
  pub kind : Bytes
  pub repo : Bytes
  pub stack : Bytes
  pub msg : Bytes
