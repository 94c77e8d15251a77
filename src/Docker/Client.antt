-- ===== src/Docker/Client.antt =====
-- internal/docker/client.go: what the program asks of the daemon about containers. A call that runs
-- into its time limit fails. The details are those of the state store, which main copies field by field.
pub mod Laws
mod Examples
use stackd.Base.{
  ℕ, ◌==◌, ◌||◌, Bool, true, false, Option, none, some, List, [], ◌∷◌, ◌++◌, if◌then◌else◌, any,
  length, take, leb, Bytes, bytes, str_eq, is_empty, trim_prefix, decimal, ℤ, pos,
}
use stackd.State.{ContainerDetail}
use stackd.Docker.{Summary, Port, Inspect, Filter, Api}
use stackd.Docker.Names.{compose_project_name}
use stackd.Docker.Env.{mask_env_vars}

-- ContainerStatus; `failed` stands for not_found along with an error.
pub data ContainerStatus : Type 0 where
  running stopped not_found failed : ContainerStatus

-- The options of a list of all containers with a name, and of those of a project.
abbrev pub named : Bytes → Filter
named name = record { term = bytes "name"; value = name }

abbrev pub of_project : Bytes → Filter
of_project stack_dir = record {
  term = bytes "label";
  value = bytes "com.docker.compose.project=" ++ compose_project_name stack_dir;
}

-- The two loops of GetContainerStatus.
pub status_of : Bytes → List Summary → ContainerStatus
status_of name [] = ContainerStatus.not_found
status_of name (ct ∷ cts) =
    if any (λ n. str_eq n (b'/' ∷ name) || str_eq n name) ct.names
    then (if str_eq ct.state (bytes "running")
        then ContainerStatus.running
        else ContainerStatus.stopped)
    else status_of name cts

-- port.Num() and port.Proto()
abbrev port_text : Port → Bytes
port_text p = decimal p.number ++ (bytes "/" ++ p.protocol)

-- The loop over the bindings.
pub bound_ports : Port → List Bytes → List Bytes
bound_ports p [] = []
bound_ports p (b ∷ bs) =
    let rest = bound_ports p bs in
    if is_empty b then rest else (b ++ (bytes ":" ++ port_text p)) ∷ rest

pub port_texts : Port → List Bytes
unfolding bound_ports
port_texts p = elim p.host_ports [ [] ↦ port_text p ∷ [] | b ∷ bs ↦ bound_ports p (b ∷ bs) ]

-- formatPorts, in the order of the list.
unfoldable pub format_ports : List Port → List Bytes
unfolding port_texts
format_ports [] = []
format_ports (p ∷ ps) = port_texts p ++ format_ports ps

abbrev pub first_name : List Bytes → Bytes
first_name [] = []
first_name (n ∷ ns) = trim_prefix (bytes "/") n

-- The first twelve bytes of an identifier.
abbrev pub short_id : Bytes → Bytes
short_id id = if leb (length id) 12 then id else take 12 id

-- The fields that an inspection that succeeded fills in; `parse_time` is time.Parse of RFC 3339,
-- the zero time where it fails.
pub inspected : (parse_time : Bytes → ℤ) → Inspect → ContainerDetail → ContainerDetail
unfolding mask_env_vars format_ports
inspected parse_time i d = record d {
  started_at = elim i.started_at [ none ↦ d.started_at | some t ↦ parse_time t ];
  env = elim i.env [ none ↦ d.env | some e ↦ mask_env_vars e ];
  ports = elim i.ports [ none ↦ d.ports | some ps ↦ format_ports ps ];
}

abbrev pub listed : Summary → ContainerDetail
listed ct = record {
  id = short_id ct.id;
  name = first_name ct.names;
  image = ct.image;
  status = ct.state;
  started_at = pos 0;
  env = [];
  ports = [];
}

pub detail : (parse_time : Bytes → ℤ) → Summary → Option Inspect → ContainerDetail
unfolding inspected
detail parse_time ct none = listed ct
detail parse_time ct (some i) = inspected parse_time i (listed ct)

pub names_of : List Summary → List Bytes
names_of [] = []
names_of (ct ∷ cts) =
    let rest = names_of cts in
    elim ct.names [ [] ↦ rest | n ∷ ns ↦ trim_prefix (bytes "/") n ∷ rest ]

module _ {D : Type 0} (api : Api D) where
  -- GetContainerStatus
  unfoldable pub get_container_status : Bytes → D → ContainerStatus × D
  unfolding status_of
  get_container_status name d =
      let (r, d') = api.container_list (named name) d in
      (elim r [ none ↦ ContainerStatus.failed | some cts ↦ status_of name cts ], d')

  -- The loop of ListStackContainerDetails: the details so far, and whether the context has ended, as
  -- `expired` says of the state of the daemon.
  pub details :
      (parse_time : Bytes → ℤ) (expired : D → Bool)
      → List Summary
      → D
      → (List ContainerDetail × Bool) × D
  unfolding detail
  details parse_time expired [] d = (([], false), d)
  details parse_time expired (ct ∷ cts) d =
      let (i, d₁) = api.container_inspect ct.id d in
      let ((ds, cut), d₂) = details parse_time expired cts d₁ in
      if expired d then (([], true), d) else ((detail parse_time ct i ∷ ds, cut), d₂)

  -- ListStackContainerDetails: the details, and whether there is an error.
  unfoldable pub list_stack_container_details :
      (parse_time : Bytes → ℤ) (expired : D → Bool) → Bytes → D → (List ContainerDetail × Bool) × D
  unfolding details
  list_stack_container_details parse_time expired stack_dir d =
      let (r, d₁) = api.container_list (of_project stack_dir) d in
      elim r [ none ↦ (([], true), d₁) | some cts ↦ details parse_time expired cts d₁ ]

  -- ListStackContainers
  unfoldable pub list_stack_containers : Bytes → D → Option (List Bytes) × D
  unfolding names_of
  list_stack_containers stack_dir d =
      let (r, d') = api.container_list (of_project stack_dir) d in
      (elim r [ none ↦ none | some cts ↦ some (names_of cts) ], d')

  -- StartContainer, StopContainer and RestartContainer: whether the call succeeds.
  unfoldable pub start_container : Bytes → D → Bool × D
  start_container name d = api.container_start name d

  unfoldable pub stop_container : Bytes → D → Bool × D
  stop_container name d = api.container_stop name d

  unfoldable pub restart_container : Bytes → D → Bool × D
  restart_container name d = api.container_restart name d
