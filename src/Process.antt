-- ===== src/Process.antt =====
-- internal/execpg and what the program reads of the host: commands as values, and the answers of the
-- operating system as functions of the commands run so far, the latest at the head.
use stackd.Base.{
  ℕ, zero, suc, Bool, true, false, Option, none, some, List, [], ◌∷◌, Bytes, if◌then◌else◌, ◌==◌, ℤ,
  negsuc, pos,
}

-- exec.Cmd with the attributes that Configure sets. `env` is `none` where the environment is that
-- of the program.
pub record Cmd : Type 0 where
  pub name : Bytes
  pub args : List Bytes
  pub env : Option (List Bytes)
  pub dir : Bytes
  pub setpgid : Bool
  pub wait_delay : ℕ

-- What a finished command gives: CombinedOutput, the standard output alone, the standard error that
-- an exec.ExitError holds, and the error's text.
pub record Ran : Type 0 where
  pub output : Bytes
  pub stdout : Bytes
  pub exit_stderr : Bytes
  pub failure : Option Bytes

-- os.DirEntry
pub record DirEntry : Type 0 where
  pub name : Bytes
  pub is_dir : Bool

-- `exists` is an os.Stat without error; `read_file` and `read_dir` are `none` where they fail. The
-- clock has one value between two commands.
pub record Host : Type 0 where
  pub run : List Cmd → Cmd → Ran
  pub exists : List Cmd → Bytes → Bool
  pub read_file : List Cmd → Bytes → Option Bytes
  pub read_dir : List Cmd → Bytes → Option (List DirEntry)
  pub now : List Cmd → ℤ
  pub environ : List Bytes
  pub known_hosts_dir : Bytes

-- exec.Command
abbrev pub command : Bytes → List Bytes → Cmd
command name args = record {
  name = name;
  args = args;
  env = none;
  dir = [];
  setpgid = false;
  wait_delay = 0;
}

-- DefaultWaitDelay, in seconds
abbrev pub default_wait_delay : ℕ
default_wait_delay = 5

-- configure, on Unix; the Cancel function is `cancel`.
abbrev pub configure : Cmd → Cmd
configure cmd = record cmd {
  setpgid = true;
  wait_delay = if cmd.wait_delay == 0 then default_wait_delay else cmd.wait_delay;
}

-- CommandContext
abbrev pub command_context : Bytes → List Bytes → Cmd
command_context name args = configure (command name args)

-- A kill system call: the process or, below zero, the group that it is sent to.
pub data Cancelled : Type 0 where
  not_started : Cancelled
  ended : (failed : Bool) (kills : List ℤ) → Cancelled

-- -pid
abbrev negate : ℕ → ℤ
negate n = elim n [ zero ↦ pos 0 | suc m ↦ negsuc m ]

-- cmd.Cancel: `kill` says whether a kill fails.
pub cancel : (ℤ → Bool) → Option ℕ → Cancelled
cancel kill none = not_started
cancel kill (some pid) =
    if kill (negate pid)
    then ended (kill (pos pid)) (negate pid ∷ pos pid ∷ [])
    else ended false (negate pid ∷ [])
