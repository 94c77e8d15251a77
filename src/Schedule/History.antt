-- ===== src/Schedule/History.antt =====
-- main.go: the retry state after any history of calls, against the failures in a row.
use stackd.Base.{
  ℕ, zero, suc, ◌⊎◌, ◌+◌, ◌*◌, ◌^◌, ◌≤◌, ◌<◌, ◌≡◌, ◌↔◌, refl, Bool, true, false, List, [], ◌∷◌,
  if◌then◌else◌, leb, arith, ℤ, pos, ◌+ℤ◌, mul_i64_pos, Bytes, lookup, str_eq, str_eq_iff,
  str_eq_refl, ltb_ℤ,
}
use stackd.Schedule.{
  Backoff, fresh, Schedule, max_sync_failures, record_sync_success, reset_backoff, fail, delay,
  record_sync_failure, skips, should_skip_sync, is_zero,
}
use stackd.Schedule.Laws.{
  backoff_of, backoff_of-success, backoff_of-reset, backoff_of-failure, backoff_of-should_skip,
  should_skip-eq-skips, failure-eq-fail,
}

-- A call on the retry state of a repository; times and intervals are those of the call.
pub data Call : Type 0 where
  success : Bytes → Call
  reset : Bytes → Call
  failure : Bytes → (base now : ℤ) → Call
  ask : Bytes → (now : ℤ) → Call

abbrev pub perform : Call → Schedule → Schedule
perform (success k) s = record_sync_success k s
perform (reset k) s = reset_backoff k s
perform (failure k base now) s = (record_sync_failure k base now s).0
perform (ask k now) s = (should_skip_sync k now s).1

-- The state after a history, whose latest call is the head of the list.
pub after : List Call → Schedule
after [] = record { backoffs = []; next_due = [] }
after (c ∷ cs) = perform c (after cs)

-- The failures of a repository since its last success or reset.
unfoldable pub streak : Bytes → List Call → ℕ
streak j [] = 0
streak j (success k ∷ cs) = if str_eq k j then 0 else streak j cs
streak j (reset k ∷ cs) = if str_eq k j then 0 else streak j cs
streak j (failure k _ _ ∷ cs) = if str_eq k j then streak j cs + 1 else streak j cs
streak j (ask _ _ ∷ cs) = streak j cs

backoff_of-nil : (j : Bytes) → backoff_of j (after []) ≡ fresh
unfolding backoff_of after lookup
backoff_of-nil j = refl

-- A syncBackoff agrees with a count of failures in a row.
pub record Counts (n : ℕ) (b : Backoff) : Type 0 where
  pub failures : b.failures ≡ n
  pub suspended : b.suspended ≡ leb max_sync_failures n

fail-Counts : (n : ℕ) (b : Backoff) (base now : ℤ) → Counts n b → Counts (n + 1) (fail base now b).0
unfolding fail
fail-Counts n b base now h = ground arith

Counts-if :
    (test : Bool) (m n : ℕ) (b c : Backoff)
    → (test ≡ true → Counts m b)
    → Counts n c
    → Counts (if test then m else n) (if test then b else c)
Counts-if true m n b c h k = h refl
Counts-if false m n b c h k = k

fresh-Counts : Counts 0 fresh
fresh-Counts = record { failures = refl; suspended = refl }

-- After any history the stored count is the number of failures since the last success or reset,
-- and the repository is suspended exactly from the tenth failure in a row on.
pub after-Counts : (j : Bytes) (cs : List Call) → Counts (streak j cs) (backoff_of j (after cs))
unfolding after streak
after-Counts j [] = rw backoff_of-nil fresh-Counts
after-Counts j (success k ∷ cs) =
    rw backoff_of-success (Counts-if _ _ _ _ _ (λ _. fresh-Counts) (after-Counts j cs))
after-Counts j (reset k ∷ cs) =
    rw backoff_of-reset (Counts-if _ _ _ _ _ (λ _. fresh-Counts) (after-Counts j cs))
after-Counts j (failure k base now ∷ cs) =
    let ih = after-Counts j cs in
    rw backoff_of-failure (
      Counts-if _ _ _ _ _ (λ e. rw ((str_eq_iff k j).0 e) (fail-Counts (streak j cs) _ base now ih))
        ih)
after-Counts j (ask k now ∷ cs) = rw backoff_of-should_skip (after-Counts j cs)

fail-reports :
    (n : ℕ) (b : Backoff) (base now : ℤ)
    → Counts n b
    → (fail base now b).1 ≡ leb max_sync_failures (n + 1)
unfolding fail
fail-reports n b base now h = ground arith

-- recordSyncFailure reports a suspension exactly at the tenth failure in a row and later ones.
pub failure-reports :
    (j : Bytes) (base now : ℤ) (cs : List Call)
    → (record_sync_failure j base now (after cs)).1 ≡ leb max_sync_failures (streak j cs + 1)
failure-reports j base now cs =
    rw failure-eq-fail (fail-reports (streak j cs) _ base now (after-Counts j cs))

-- The delays after the first, second and later failures, in base intervals.
abbrev pub delay_factor : ℕ → ℕ
delay_factor zero = 2
delay_factor (suc zero) = 4
delay_factor (suc (suc _)) = 8

pow_bounds : (n : ℕ) → n < 9 → (2 ^ (n + 1) ≤ 512) × (1 < n → 8 ≤ 2 ^ (n + 1))
pow_bounds zero h = omega arith
pow_bounds (suc zero) h = omega arith
pow_bounds (suc (suc zero)) h = omega arith
pow_bounds (suc (suc (suc zero))) h = omega arith
pow_bounds (suc (suc (suc (suc zero)))) h = omega arith
pow_bounds (suc (suc (suc (suc (suc zero))))) h = omega arith
pow_bounds (suc (suc (suc (suc (suc (suc zero)))))) h = omega arith
pow_bounds (suc (suc (suc (suc (suc (suc (suc zero))))))) h = omega arith
pow_bounds (suc (suc (suc (suc (suc (suc (suc (suc zero)))))))) h = omega arith
pow_bounds (suc (suc (suc (suc (suc (suc (suc (suc (suc n))))))))) h = omega arith

capped : ℕ → ℕ → ℕ → ℤ
capped m p base = if ltb_ℤ (pos (8 * base)) (pos (p * base)) then pos (8 * base) else pos (p * base)

capped_small : (p base : ℕ) → p ≤ 8 → capped 8 p base ≡ pos (p * base)
unfolding capped
capped_small p base h = let m : p * base ≤ 8 * base = grind arith in ground arith

capped_large : (p base : ℕ) → 8 ≤ p → capped 8 p base ≡ pos (8 * base)
unfolding capped
capped_large p base h = let m : 8 * base ≤ p * base = grind arith in ground arith

capped-delay : (n base : ℕ) → n < 9 → capped 8 (2 ^ (n + 1)) base ≡ pos (delay_factor n * base)
capped-delay zero base h = capped_small 2 base (omega arith)
capped-delay (suc zero) base h = capped_small 4 base (omega arith)
capped-delay (suc (suc n)) base h =
    capped_large _ base ((pow_bounds (suc (suc n)) h).1 (omega arith))

delay-eq :
    (n base : ℕ) → n < 9 → base < 2 ^ 53 → delay (n + 1) (pos base) ≡ pos (delay_factor n * base)
unfolding delay capped
delay-eq n base k l =
    let (p, _) = pow_bounds n k in
    let small : 2 ^ (n + 1) * base < 2 ^ 63 = grind arith in
    rw (mul_i64_pos 8 base (omega arith), mul_i64_pos (2 ^ (n + 1)) base small)
      (capped-delay n base k)

fail-delay :
    (n base : ℕ) (now : ℤ) (b : Backoff)
    → Counts n b
    → n < 9
    → base < 2 ^ 53
    → (fail (pos base) now b).0.next_allowed ≡ now +ℤ pos (delay_factor n * base)
unfolding fail
fail-delay n base now b h k l = ground (arith, delay-eq n base k l)

skips_lem :
    (n : ℕ) (now : ℤ) (b : Backoff)
    → Counts n b
    → (skips now b ≡ true) ↔ (
        (max_sync_failures ≤ n)
        ⊎ ((is_zero b.next_allowed ≡ false) × (ltb_ℤ now b.next_allowed ≡ true)))
unfolding skips
skips_lem n now b h = (λ e. ground arith, λ e. ground arith)

-- A failure before the tenth delays the next sync by two, four and from then on eight intervals,
-- for intervals up to 2^53 nanoseconds.
pub failure-delay :
    (j : Bytes) (base : ℕ) (now : ℤ) (cs : List Call)
    → streak j cs < 9
    → base < 2 ^ 53
    → (backoff_of j (record_sync_failure j (pos base) now (after cs)).0).next_allowed
      ≡ now +ℤ pos (delay_factor (streak j cs) * base)
failure-delay j base now cs h k =
    rw (backoff_of-failure, str_eq_refl)
      (fail-delay (streak j cs) base now _ (after-Counts j cs) h k)

-- shouldSkipSync answers yes exactly for a repository that is suspended, or whose next allowed
-- time is set and still to come.
pub should_skip_iff :
    (j : Bytes) (now : ℤ) (cs : List Call)
    → ((should_skip_sync j now (after cs)).0 ≡ true) ↔ (
        (max_sync_failures ≤ streak j cs)
        ⊎ ((is_zero (backoff_of j (after cs)).next_allowed ≡ false)
            × (ltb_ℤ now (backoff_of j (after cs)).next_allowed ≡ true)))
should_skip_iff j now cs =
    rw should_skip-eq-skips (skips_lem (streak j cs) now _ (after-Counts j cs))
