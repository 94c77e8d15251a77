-- ===== src/Docker/Client/Examples.antt =====
-- Tests of the client against a daemon with one container.
use stackd.Base.{
  ◌≡◌, refl, Bool, true, false, ◌==◌, some, [], ◌∷◌, All, Bytes, bytes, text, pos, ℤ, decimal, ℕ,
  ◌+◌,
}
use stackd.State.{ContainerDetail}
use stackd.Docker.{Api}
use stackd.Docker.Env.{mask_env_vars, mask_env_var, has_userinfo_url, scheme_at, userinfo_at}
use stackd.Docker.Client.{
  ContainerStatus, get_container_status, status_of, format_ports, port_texts, bound_ports, details,
  detail, inspected, list_stack_container_details, list_stack_containers, names_of,
}
use stackd.Docker.Client.Laws.{IsShowable, list_stack_container_details-IsShowable}

-- The state is the number of the calls.
abbrev daemon : Api ℕ
daemon = record {
  container_list = λ f d. (
    some (
        record {
          id = bytes "0123456789abcdef";
          names = bytes "/web-1" ∷ [];
          image = bytes "nginx";
          state = bytes "running";
        }
        ∷ []),
    d + 1,
  );
  container_inspect = λ id d. (
    some (record {
      started_at = some (bytes "2024-01-01T00:00:00Z");
      env = some (bytes "DB_PASSWORD=x" ∷ bytes "A=b" ∷ []);
      ports = some (
          record { number = 80; protocol = bytes "tcp"; host_ports = bytes "8080" ∷ [] }
          ∷ record { number = 443; protocol = bytes "tcp"; host_ports = [] }
          ∷ []);
    }),
    d + 1,
  );
  container_start = λ _ d. (true, d + 1);
  container_stop = λ _ d. (true, d + 1);
  container_restart = λ _ d. (true, d + 1);
  exec_create = λ _ cmd _ d. (some (bytes "e1"), d + 1);
  exec_start = λ _ d. (true, d + 1);
  exec_exit_code = λ _ d. (some (pos 0), d + 1);
  exec_attach = λ _ d. (true, d + 1);
  exec_resize = λ _ _ _ d. (true, d + 1);
}

abbrev parse_time : Bytes → ℤ
parse_time t = pos 7

abbrev shown : ContainerDetail
shown = record {
  id = bytes "0123456789ab";
  name = bytes "web-1";
  image = bytes "nginx";
  status = bytes "running";
  started_at = pos 7;
  env = bytes "DB_PASSWORD=[redacted]" ∷ bytes "A=b" ∷ [];
  ports = bytes "8080:80/tcp" ∷ bytes "443/tcp" ∷ [];
}

abbrev in_time : ℕ → Bool
in_time _ = false

-- The context ends behind the list.
abbrev late : ℕ → Bool
late d = d == 1

listed_web :
    (list_stack_container_details daemon parse_time in_time (bytes "/data/infra/web") 0)
    ≡ ((shown ∷ [], false), 2)
unfolding list_stack_container_details details detail inspected mask_env_vars mask_env_var
    has_userinfo_url scheme_at userinfo_at format_ports port_texts bound_ports text decimal
listed_web = refl

too_late :
    (list_stack_container_details daemon parse_time late (bytes "/data/infra/web") 0)
    ≡ (([], true), 1)
unfolding list_stack_container_details details text
too_late = refl

found : (get_container_status daemon (bytes "web-1") 0) ≡ (ContainerStatus.running, 1)
unfolding get_container_status status_of text
found = refl

names : (list_stack_containers daemon (bytes "/data/infra/web") 0).0 ≡ some (bytes "web-1" ∷ [])
unfolding list_stack_containers names_of text
names = refl

list_stack_container_details-IsShowable_example :
    All IsShowable
      (list_stack_container_details daemon parse_time in_time (bytes "/data/infra/web") 0).0.0
list_stack_container_details-IsShowable_example =
    list_stack_container_details-IsShowable parse_time daemon in_time (bytes "/data/infra/web") 0
