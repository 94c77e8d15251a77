-- ===== src/Lib.antt =====
-- stackd, a GitOps server: it keeps clones of git repositories, applies the Docker Compose stacks in
-- them when a commit arrives, and serves a dashboard.
--
-- The main loop (main.go) lists the repositories from the database, decides by the schedule and the
-- retry state which of them are due, and syncs each through internal/git; the result goes to the
-- state store, the metrics and the activity bus, which the dashboard server (internal/server) shows.
-- The server changes the database and puts sync requests into a queue that the main loop drains.
--
-- Parts and files:
--   Base, with Base/*: Boolean tests, lists, integers of 64 bits, byte strings, maps, decimal numbers.
--   Process: internal/execpg (CommandContext, configure, Cancel), and the host that runs commands.
--   Paths: path/filepath's Clean, Join and Rel as the program uses them.
--   Git.Validate, Git.Redact, Git.Sync: internal/git/git.go.
--   Schedule, with Interval and History: main.go, from syncBackoff and dueForSync to resetBackoff.
--   Stacks.Compose, Stacks.Summary: main.go, buildComposeCmd and extractErrorSummary and what stands
--     around them; internal/compose/compose.go.
--   Stacks.Apply: main.go, applyStack and runStacksSync.
--   Sync.Auth, Sync.Repo: main.go, safeRepoPath, setupGitAuth, gitSyncToDisk and syncRepoFromDB.
--   Sync.Lock: main.go, repoLock, and the goroutines that hold a repository's mutex.
--   Containers, Containers.Connect: main.go, refreshContainers.
--   Main.Config, Main.Round, Main.Loop, Main.Callback, Main.Token, Main.Startup: main.go,
--     loadDefaultInterval and loadInfisicalFromDB, doSyncRound, the loop of main, the callback of
--     SetApplyStack, ensureDashboardToken, and the start of main with seedDevState.
--   State, State.Store, State.Bus: internal/state/state.go.
--   Docker, with Names, Env, Client, Shell and Holder: internal/docker.
--   Crypto: internal/crypto/crypto.go.
--   Metrics, Metrics.Labels, Metrics.Text: internal/metrics/metrics.go.
--   Db, with Repos, Keys, Settings, Rebind and Open: internal/db.
--   Server.Http, Server.Repos, Server.Settings, Server.Keys: internal/server/settings_handlers.go.
--   Server.Auth, Server.Limiter, Server.Trigger, Server.Apply, Server.Status, Server.Origin,
--     Server.Files, Server.Containers, Server.Exec, Server.Routes, Server.Stream, Server.System:
--     internal/server/server.go.
--
-- A function keeps its name in snake case: handleCreateRepo is handle_create_repo. State is passed
-- explicitly: an operation takes the state last and returns its answer and the new state. A Go string
-- is a list of bytes, a time or a duration an integer of nanoseconds, an error a value. Operations that
-- hold a lock for their whole run are one step. A map is an association list.
--
-- Code outside the program is a parameter: url.Parse, base64, AES-GCM, JSON encoding, the Docker API
-- (`Api`), the operating system (`Host`) and the clock. A statement of SQL is a function on the tables
-- with the constraints of the migrations, and may fail for outside reasons (`faults` of `Database`). No
-- loop needs fuel but `decimal`, which has as much as the number.
--
-- Where the documents and the code differ, the code is modelled: docs/security.md and
-- docs/configuration.md call the API open without a token, which the code never serves so, and the
-- dashboard token encrypted in the database, where the code stores it as it is; docs/infisical.md has
-- the global token in the arguments, which the code passes in the environment.
--
-- Not modelled: the embedded assets (internal/ui), the byte streams of logs and exec sessions that
-- come from Docker, Start with the goroutines and the shutdown, the setup of the logs, the creation of
-- directories, injectPAT, newUUID, and execpg on systems without process groups: they are calls of
-- libraries and of the operating system.
pub mod Base
pub mod Process
pub mod Paths
pub mod Containers
pub mod Crypto
pub mod Docker
pub mod Git
pub mod Schedule
pub mod Metrics
pub mod State
pub mod Stacks
pub mod Sync
pub mod Db
pub mod Main
pub mod Server
