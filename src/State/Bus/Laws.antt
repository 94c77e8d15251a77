-- ===== src/State/Bus/Laws.antt =====
-- internal/state/state.go: which events a subscriber receives.
use stackd.Base.{
  ℕ, zero, suc, ◌≤◌, ◌==◌, ltb, ◌≡◌, inl, inr, refl, ◌∙◌, ap, sym, Bool-cases, Option-cases, Option,
  none, some, List, [], ◌∷◌, ◌++◌, map, length, take, append-nil, append_assoc, length-append,
  if◌then◌else◌, arith, Bytes,
}
use stackd.State.{ActivityEvent}
use stackd.State.Bus.{Subscriber, Bus, buffer_size, offer, publish}

-- The buffer of a channel, where it is subscribed.
unfoldable pub buffer_in : ℕ → List Subscriber → Option (List Bytes)
buffer_in c [] = none
buffer_in c (s ∷ subs) =
    let rest = buffer_in c subs in if s.channel == c then some s.buffer else rest

abbrev pub buffer_of : ℕ → Bus → Option (List Bytes)
buffer_of c b = buffer_in c b.subs

-- The buffer behind messages that are offered to it, the oldest at the head.
abbrev pub offer_all : List Bytes → List Bytes → List Bytes
offer_all [] q = q
offer_all (d ∷ ds) q = offer_all ds (if ltb (length q) buffer_size then q ++ d ∷ [] else q)

buffer_in-offer :
    (c : ℕ) (msg : Bytes) (subs : List Subscriber) {q : List Bytes}
    → buffer_in c subs ≡ some q
    → buffer_in c (map (offer msg) subs)
      ≡ some (if ltb (length q) buffer_size then q ++ msg ∷ [] else q)
unfolding buffer_in
buffer_in-offer c msg [] e = ground arith
buffer_in-offer c msg (s ∷ subs) {q} e = elim (Bool-cases (s.channel == c)) [
  | inl t ↦ rw (t, buffer_in) (ground arith)
  | inr t ↦ rw (t, buffer_in) (buffer_in-offer c msg subs (rw (t, buffer_in) at e))
]

take_all : (n : ℕ) (xs : List Bytes) → length xs ≤ n → take n xs ≡ xs
take_all zero [] h = refl
take_all zero (x ∷ xs) h = absurd (omega arith)
take_all (suc n) [] h = refl
take_all (suc n) (x ∷ xs) h = ground (arith, take_all n xs)

take-append_full : (n : ℕ) (xs ys : List Bytes) → length xs ≡ n → take n (xs ++ ys) ≡ xs
take-append_full zero [] [] h = refl
take-append_full zero [] (y ∷ ys) h = refl
take-append_full zero (x ∷ xs) ys h = absurd (ground arith)
take-append_full (suc n) [] ys h = absurd (ground arith)
take-append_full (suc n) (x ∷ xs) ys h = ground (arith, take-append_full n xs ys)

-- Messages offered to a buffer of at most 32 are kept up to 32, in their order.
offer_all-eq-take :
    (ds q : List Bytes) → length q ≤ buffer_size → offer_all ds q ≡ take buffer_size (q ++ ds)
offer_all-eq-take [] q h = rw append-nil (sym (take_all buffer_size q h))
offer_all-eq-take (d ∷ ds) q h = elim (Bool-cases (ltb (length q) buffer_size)) [
  | inl e ↦ rw e (
      offer_all-eq-take ds (q ++ d ∷ []) (let l = length-append q (d ∷ []) in ground arith)
      ∙ ap (take buffer_size) (append_assoc q (d ∷ []) ds))
  | inr e ↦ rw e (
      offer_all-eq-take ds q h
      ∙ take-append_full buffer_size q ds (ground arith)
      ∙ sym (take-append_full buffer_size q (d ∷ ds) (ground arith)))
]

module _ (marshal : ActivityEvent → Option Bytes) where
  -- The messages of events, the oldest at the head.
  abbrev pub messages : List ActivityEvent → List Bytes
  messages [] = []
  messages (ev ∷ evs) = elim (marshal ev) [ none ↦ messages evs | some m ↦ m ∷ messages evs ]

  -- The bus behind the events, published in their order.
  abbrev pub publish_all : List ActivityEvent → Bus → Bus
  publish_all [] b = b
  publish_all (ev ∷ evs) b = publish_all evs (publish marshal ev b)

  publish-none : (ev : ActivityEvent) (b : Bus) → marshal ev ≡ none → publish marshal ev b ≡ b
  unfolding publish
  publish-none ev b f = rw (f, publish) refl

  publish-some :
      (ev : ActivityEvent) (b : Bus) {m : Bytes}
      → marshal ev ≡ some m
      → publish marshal ev b ≡ record { subs = map (offer m) b.subs }
  unfolding publish
  publish-some ev b f = rw (f, publish) refl

  messages-none :
      (ev : ActivityEvent) (evs : List ActivityEvent)
      → marshal ev ≡ none
      → messages (ev ∷ evs) ≡ messages evs
  messages-none ev evs f = rw (f, messages) refl

  messages-some :
      (ev : ActivityEvent) (evs : List ActivityEvent) {m : Bytes}
      → marshal ev ≡ some m
      → messages (ev ∷ evs) ≡ m ∷ messages evs
  messages-some ev evs f = rw (f, messages) refl

  buffer_of-publish_all :
      (c : ℕ) (evs : List ActivityEvent) (b : Bus) {q : List Bytes}
      → buffer_of c b ≡ some q
      → buffer_of c (publish_all evs b) ≡ some (offer_all (messages evs) q)
  unfolding publish
  buffer_of-publish_all c [] b e = e
  buffer_of-publish_all c (ev ∷ evs) b {q} e = elim (Option-cases (marshal ev)) [
    | inl f ↦
        ap (λ x. buffer_of c (publish_all evs x)) (publish-none ev b f)
        ∙ buffer_of-publish_all c evs b e
        ∙ ap (λ ms. some (offer_all ms q)) (sym (messages-none ev evs f))
    | inr (m, f) ↦
        ap (λ x. buffer_of c (publish_all evs x)) (publish-some ev b f)
        ∙ buffer_of-publish_all c evs _ (buffer_in-offer c m b.subs e)
        ∙ ap (λ ms. some (offer_all ms q)) (sym (messages-some ev evs f))
  ]

  -- A subscriber whose buffer is not read keeps the first messages that it is sent, in their order,
  -- up to 32 with those that it had; later ones are dropped.
  pub published-take :
      (c : ℕ) (evs : List ActivityEvent) (b : Bus) {q : List Bytes}
      → buffer_of c b ≡ some q
      → length q ≤ buffer_size
      → buffer_of c (publish_all evs b) ≡ some (take buffer_size (q ++ messages evs))
  published-take c evs b {q} e h =
      buffer_of-publish_all c evs b e ∙ ap some (offer_all-eq-take (messages evs) q h)
