-- ===== src/Search/Delay.antt =====
-- The delay before a request is searched for again.
use pornarr.Common.{
  ℕ, zero, suc, ◌*◌, ◌-◌, ◌^◌, ◌≤◌, ◌<◌, ◌≡◌, ◌∙◌, refl, Bool, true, false, ◌&&◌, arith, leb, ◌==◌,
  if◌then◌else◌, Bool-cases, inl, inr,
}
use native.Mathlib.Decide.{dec_lt}
use pornarr.Search.{
  Result, ok, raised, delay_overflow, search_retry_delay, request_search_initial_delay,
  request_search_max_delay,
}

-- What the delay is, with the numbers of attempts written out.
abbrev pub expected_delay : ℕ → Result ℕ
expected_delay attempts =
    if leb attempts 8
    then ok (request_search_initial_delay * 2 ^ (attempts - 1))
    else if leb attempts 35
    then ok request_search_max_delay
    else raised delay_overflow

pow-ge : (n : ℕ) → 35 ≤ n → 34359738368 ≤ 2 ^ n
pow-ge zero h = absurd (omega arith)
pow-ge (suc m) h = elim (dec_lt m 35) [
  | yes p ↦ let e : m ≡ 34 = omega arith in rw e (omega arith)
  | no p ↦ omega (arith, pow-ge m (omega arith))
]

late :
    (attempts : ℕ) → leb attempts 35 ≡ false → search_retry_delay attempts ≡ raised delay_overflow
unfolding search_retry_delay
late attempts h = ground (arith, pow-ge (attempts - 1))

-- The first attempts are few enough to check each.
abbrev agrees : Result ℕ → Result ℕ → Bool
agrees (ok a) (ok b) = a == b
agrees (raised delay_overflow) (raised delay_overflow) = true
agrees _ _ = false

all_below : ℕ → (ℕ → Bool) → Bool
all_below zero p = true
all_below (suc n) p = p n && all_below n p

all_below_holds : (n : ℕ) (p : ℕ → Bool) (x : ℕ) → all_below n p ≡ true → x < n → p x ≡ true
unfolding all_below
all_below_holds zero p x h lt = absurd (omega arith)
all_below_holds (suc n) p x h lt = ground (arith, all_below_holds n p x)

early : all_below 36 (λ n. agrees (search_retry_delay n) (expected_delay n)) ≡ true
unfolding all_below search_retry_delay
early = refl

agrees-eq : (a b : Result ℕ) → agrees a b ≡ true → a ≡ b
agrees-eq (ok a) (ok b) h = ground arith
agrees-eq (ok a) (raised e) h = cc
agrees-eq (raised e) (ok a) h = ground arith
agrees-eq (raised d) (raised e) h = ground arith

-- The delay doubles from an hour up to 128 hours, is a week from the ninth to the thirty-fifth
-- attempt, and past that the computation of the delay overflows.
pub search_retry_delay-eq : (attempts : ℕ) → search_retry_delay attempts ≡ expected_delay attempts
search_retry_delay-eq attempts = elim (Bool-cases (leb attempts 35)) [
  | inl few ↦ agrees-eq (search_retry_delay attempts) (expected_delay attempts) (
      all_below_holds 36 (λ n. agrees (search_retry_delay n) (expected_delay n)) attempts early
        (ground arith))
  | inr many ↦ late attempts many ∙ ground arith
]
