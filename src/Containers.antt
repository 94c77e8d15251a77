-- ===== src/Containers.antt =====
-- main.go: refreshContainers. The store is the program's own; the holder may be nil. Timeouts and
-- logging are left out.
pub mod Connect
mod Effect
pub mod Laws
pub mod Settled
mod Examples
use stackd.Base.{
  ℕ, zero, suc, ◌+◌, Bool, true, false, Option, none, some, List, [], ◌∷◌, if◌then◌else◌, Bytes,
  bytes, is_empty, str_eq,
}
use stackd.Process.{Cmd}
use stackd.State.{ContainerDetail, StackState}
use stackd.State.Store.{Store, stack_key, get_all_stacks, update_stack_containers}
use stackd.Metrics.{set_containers_running}
use stackd.Stacks.Apply.{World}
use stackd.Docker.Holder.{ClientHolder}
use stackd.Containers.Connect.{connect}

-- The loop that counts the running containers.
abbrev pub running : List ContainerDetail → ℕ
running [] = 0
running (c ∷ cs) = if str_eq c.status (bytes "running") then suc (running cs) else running cs

abbrev pub or_none : Option (List ContainerDetail) → List ContainerDetail
or_none none = []
or_none (some cs) = cs

module _ (list_containers : List Cmd → Bytes → Option (List ContainerDetail)) where
  -- The containers of a directory, none where the list fails.
  abbrev pub containers_in : List Cmd → Bytes → List ContainerDetail
  containers_in trace dir = or_none (list_containers trace dir)

  -- The body of the loop over the stacks.
  pub refresh_stack : StackState → World → World
  refresh_stack st w =
      let cs = containers_in w.trace st.stack_dir in
      if is_empty st.stack_dir then w else record w {
        store = update_stack_containers st.repo_name st.name cs w.store;
        metrics = set_containers_running (stack_key st.repo_name st.name) (running cs) w.metrics;
      }

  pub refresh_stacks : List StackState → World → World
  unfolding refresh_stack
  refresh_stacks [] w = w
  refresh_stacks (st ∷ sts) w = refresh_stacks sts (refresh_stack st w)

  -- refreshContainers behind the connection: nothing where there is no client.
  unfoldable pub refresh_with : Option ℕ → World → World
  unfolding refresh_stacks
  refresh_with none w = w
  refresh_with (some client) w = refresh_stacks (get_all_stacks w.store) w

  -- refreshContainers; `created` and `others` are as in `connect`.
  unfoldable pub refresh_containers :
      (created : Option ℕ) (others : ℕ → Option ClientHolder → Option ClientHolder)
      → Option ClientHolder
      → World
      → Option ClientHolder × World
  unfolding refresh_with
  refresh_containers created others holder w =
      let c = connect created others holder in (c.holder, refresh_with c.client w)
