-- ===== src/Server/Origin/Laws.antt =====
-- internal/server/server.go: which origins may open a WebSocket.
use stackd.Base.{
  ◌≡◌, ◌≢◌, ◌↔◌, inl, inr, refl, Bool-cases, Option-cases, Bool, true, Option, some, List, [], ◌∷◌,
  arith, any, Bytes, is_empty, is_empty-eq-true, is_empty-eq-false, equal_fold, In, trim_space,
  split_byte,
}
use stackd.Server.Origin.{is_listed, check_origin}

-- An entry of the list that is the origin, cases and spaces around it aside.
pub record IsAllowed (origin allowed : Bytes) : Type 0 where
  pub entry : Bytes
  pub listed : In entry (split_byte b',' allowed)
  pub same : equal_fold (trim_space entry) origin ≡ true

any-In :
    (p : Bytes → Bool) (xs : List Bytes) → any p xs ≡ true → (x : Bytes) × In x xs × (p x ≡ true)
any-In p [] h = ground arith
any-In p (x ∷ xs) h = elim (Bool-cases (p x)) [
  | inl e ↦ (x, inl refl, e)
  | inr e ↦ let (y, i, q) = any-In p xs (ground arith) in (y, inr i, q)
]

In-any : (p : Bytes → Bool) (x : Bytes) (xs : List Bytes) → In x xs → p x ≡ true → any p xs ≡ true
In-any p x [] i h = absurd i
In-any p x (y ∷ xs) (inl e) h = rw e (rw h refl)
In-any p x (y ∷ xs) (inr i) h = ground (arith, In-any p x xs i h)

-- Why an origin is accepted: there is none, or it is a URL, of the request's host or in a list that
-- is not empty.
pub data IsAccepted (host_of : Bytes → Option Bytes) (origin host allowed : Bytes) : Type 0 where
  no_origin : origin ≡ [] → IsAccepted host_of origin host allowed
  same_host :
      (u : Bytes)
      → origin ≢ []
      → host_of origin ≡ some u
      → equal_fold u host ≡ true
      → IsAccepted host_of origin host allowed
  in_list :
      (u : Bytes)
      → origin ≢ []
      → host_of origin ≡ some u
      → allowed ≢ []
      → IsAllowed origin allowed
      → IsAccepted host_of origin host allowed

module _ (host_of : Bytes → Option Bytes) (origin host allowed : Bytes) where
  check_origin_sound :
      check_origin host_of origin host allowed ≡ true → IsAccepted host_of origin host allowed
  unfolding check_origin
  check_origin_sound h = elim (Bool-cases (is_empty origin)) [
    | inl e ↦ no_origin (is_empty-eq-true origin e)
    | inr e ↦
        let n = is_empty-eq-false origin e in
        elim (Option-cases (host_of origin)) [
          | inl f ↦ ground arith
          | inr (u, f) ↦ elim (Bool-cases (equal_fold u host)) [
            | inl s ↦ same_host u n f s
            | inr s ↦ elim (Bool-cases (is_empty allowed)) [
              | inl a ↦ ground arith
              | inr a ↦
                  let l : is_listed origin allowed ≡ true = ground arith in
                  let (x, i, q) = any-In _ (split_byte b',' allowed) l in
                  in_list u n f (is_empty-eq-false allowed a)
                    (record { entry = x; listed = i; same = q })
            ]
          ]
        ]
  ]

  check_origin_complete :
      IsAccepted host_of origin host allowed → check_origin host_of origin host allowed ≡ true
  unfolding check_origin
  check_origin_complete (no_origin e) = rw (e, check_origin) refl
  check_origin_complete (same_host u n f s) = ground arith
  check_origin_complete (in_list u n f a i) =
      let l : is_listed origin allowed ≡ true =
        In-any _ i.entry (split_byte b',' allowed) i.listed i.same in
      ground arith

  -- An origin may open a WebSocket exactly if the request has none, or if it is a URL whose host is
  -- the request's or which the list of allowed origins has, without regard to case.
  pub check_origin_iff :
      (check_origin host_of origin host allowed ≡ true) ↔ IsAccepted host_of origin host allowed
  check_origin_iff = (check_origin_sound, check_origin_complete)
