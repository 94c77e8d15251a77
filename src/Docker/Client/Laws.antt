-- ===== src/Docker/Client/Laws.antt =====
-- internal/docker/client.go: what the details of containers show.
use stackd.Base.{
  ℕ, Bool, zero, suc, ◌≤◌, inl, inr, Bool-cases, Option-cases, Option, none, some, List, [], ◌∷◌,
  arith, All, length, take, leb, Bytes, ℤ,
}
use stackd.State.{ContainerDetail}
use stackd.Docker.{Summary, Inspect, Api}
use stackd.Docker.Env.Laws.{IsHarmless, mask_env_vars-IsHarmless}
use stackd.Docker.Client.{
  of_project, short_id, listed, inspected, detail, details, list_stack_container_details,
}

-- A container's details that may be shown: no secret in the environment, a short identifier.
pub record IsShowable (d : ContainerDetail) : Type 0 where
  pub env : All IsHarmless d.env
  pub id : length d.id ≤ 12

length-take : (n : ℕ) (s : Bytes) → length (take n s) ≤ n
length-take zero s = ground arith
length-take (suc n) [] = ground arith
length-take (suc n) (c ∷ s) = ground (arith, length-take n s)

length-short_id : (id : Bytes) → length (short_id id) ≤ 12
length-short_id id = elim (Bool-cases (leb (length id) 12)) [
  | inl e ↦ rw e (ground arith)
  | inr e ↦ rw e (length-take 12 id)
]

module _ (parse_time : Bytes → ℤ) where
  inspected-env :
      (i : Inspect) (d : ContainerDetail)
      → All IsHarmless d.env
      → All IsHarmless (inspected parse_time i d).env
  unfolding inspected
  inspected-env i d h = elim (Option-cases i.env) [
    | inl e ↦ rw e h
    | inr (env, e) ↦ rw e (mask_env_vars-IsHarmless env)
  ]

  detail-IsShowable : (ct : Summary) (i : Option Inspect) → IsShowable (detail parse_time ct i)
  unfolding detail inspected
  detail-IsShowable ct none = record { env = tt; id = length-short_id ct.id }
  detail-IsShowable ct (some i) = record {
    env = inspected-env i (listed ct) tt;
    id = length-short_id ct.id;
  }

  module _ {D : Type 0} (api : Api D) (expired : D → Bool) where
    details-All :
        (cts : List Summary) (d : D) → All IsShowable (details api parse_time expired cts d).0.0
    unfolding details
    details-All [] d = tt
    details-All (ct ∷ cts) d = elim (Bool-cases (expired d)) [
      | inl e ↦ rw (e, details) tt
      | inr e ↦ rw (e, details) (detail-IsShowable ct _, details-All cts _)
    ]

    -- Whatever the daemon answers and whenever the context ends, the details of a stack's containers
    -- show no value of an environment that is sensitive by its key or carries a URL with a user and a
    -- password, and no identifier of more than twelve bytes.
    pub list_stack_container_details-IsShowable :
        (stack_dir : Bytes) (d : D)
        → All IsShowable (list_stack_container_details api parse_time expired stack_dir d).0.0
    unfolding list_stack_container_details
    list_stack_container_details-IsShowable stack_dir d =
        let r = api.container_list (of_project stack_dir) d in
        elim (Option-cases r.0) [
          | inl e ↦ rw (e, list_stack_container_details) tt
          | inr (cts, e) ↦ rw (e, list_stack_container_details) (details-All cts r.1)
        ]
