-- ===== src/Docker.antt =====
-- internal/docker: the client of the Docker daemon, the masking of what it shows, and the holder of
-- the client. The daemon answers as a function of its state, which a call may change.
pub mod Names
pub mod Env
pub mod Client
pub mod Shell
pub mod Holder
use stackd.Base.{ℕ, Bool, Option, List, Bytes, ℤ}

-- container.Summary, as far as it is read.
pub record Summary : Type 0 where
  pub id : Bytes
  pub names : List Bytes
  pub image : Bytes
  pub state : Bytes

-- network.PortMap: the number and the protocol of each port, and the HostPorts of its bindings.
pub record Port : Type 0 where
  pub number : ℕ
  pub protocol : Bytes
  pub host_ports : List Bytes

-- container.InspectResponse; a pointer is an Option.
pub record Inspect : Type 0 where
  pub started_at : Option Bytes
  pub env : Option (List Bytes)
  pub ports : Option (List Port)

-- Options of ContainerList with All set: the filter's term and its value.
pub record Filter : Type 0 where
  pub term : Bytes
  pub value : Bytes

-- What is asked of the daemon, whose state is a `D`; `none` and `false` stand for an error.
pub record Api (D : Type 0) : Type 0 where
  pub container_list : Filter → D → Option (List Summary) × D
  pub container_inspect : Bytes → D → Option Inspect × D
  pub container_start : Bytes → D → Bool × D
  pub container_stop : Bytes → D → Bool × D
  pub container_restart : Bytes → D → Bool × D
  pub exec_create : Bytes → List Bytes → (tty : Bool) → D → Option Bytes × D
  pub exec_start : Bytes → D → Bool × D
  pub exec_exit_code : Bytes → D → Option ℤ × D
  pub exec_attach : Bytes → D → Bool × D
  pub exec_resize : Bytes → ℕ → ℕ → D → Bool × D
