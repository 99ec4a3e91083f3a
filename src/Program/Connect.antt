-- ===== src/Program/Connect.antt =====
-- The loop of registrator.go that waits for the registry. Whether an attempt's Ping succeeds is a
-- parameter; the waits between the attempts are not modelled.
use registrator.Common.{
  ℕ, zero, suc, ◌+◌, ◌≤◌, ◌<◌, ◌≡◌, sym, ◌∙◌, ap, Bool, true, false, ◌||◌, Option, none, some,
  if◌then◌else◌, arith,
}
use registrator.Common.Int.{ℤ, pos, negsuc, leb_ℤ, eq_ℤ}

-- How the loop ends: at the attempt that succeeds, with log.Fatal, or with no attempt at all.
pub data Connection : Type 0 where
  connected : ℕ → Connection
  gave_up : Connection
  skipped : Connection

-- `for *retryAttempts == -1 || attempt <= *retryAttempts`, from an attempt on; `none` where the fuel
-- has run out.
unfoldable pub connect_from : (ℕ → Bool) → ℤ → ℕ → ℕ → Option Connection
connect_from ping retries zero attempt = none
connect_from ping retries (suc fuel) attempt =
    let rest = connect_from ping retries fuel (suc attempt) in
    if eq_ℤ retries (negsuc 0) || leb_ℤ (pos attempt) retries
    then if ping attempt
      then some (connected attempt)
      else if eq_ℤ (pos attempt) retries
      then some gave_up
      else rest
    else some skipped

unfoldable pub connect : (ℕ → Bool) → ℤ → ℕ → Option Connection
unfolding connect_from
connect ping retries fuel = connect_from ping retries fuel 0

-- The number of attempts allows this one.
abbrev Allows : ℤ → ℕ → Type 0
Allows (pos n) k = k ≤ n
Allows (negsuc zero) k = Unit
Allows (negsuc (suc n)) k = ⊥

round-hit :
    (ping : ℕ → Bool) (retries : ℤ) (fuel attempt : ℕ)
    → Allows retries attempt
    → ping attempt ≡ true
    → connect_from ping retries (suc fuel) attempt ≡ some (connected attempt)
unfolding connect_from
round-hit ping (pos n) fuel attempt a e = ground arith
round-hit ping (negsuc zero) fuel attempt a e = ground arith
round-hit ping (negsuc (suc n)) fuel attempt a e = absurd a

round-miss :
    (ping : ℕ → Bool) (retries : ℤ) (fuel attempt : ℕ)
    → Allows retries (suc attempt)
    → ping attempt ≡ false
    → connect_from ping retries (suc fuel) attempt ≡ connect_from ping retries fuel (suc attempt)
unfolding connect_from
round-miss ping (pos n) fuel attempt a e = ground arith
round-miss ping (negsuc zero) fuel attempt a e = ground arith
round-miss ping (negsuc (suc n)) fuel attempt a e = absurd a

round_last :
    (ping : ℕ → Bool) (fuel attempt : ℕ)
    → ping attempt ≡ false
    → connect_from ping (pos attempt) (suc fuel) attempt ≡ some gave_up
unfolding connect_from
round_last ping fuel attempt e = ground arith

-- The attempts before an allowed one are allowed.
Allows-sooner : (retries : ℤ) (k j : ℕ) → Allows retries k → j ≤ k → Allows retries j
Allows-sooner (pos n) k j a le = omega arith
Allows-sooner (negsuc zero) k j a le = tt
Allows-sooner (negsuc (suc n)) k j a le = a

connect_from-hit :
    (ping : ℕ → Bool) (retries : ℤ) (k fuel attempt : ℕ)
    → Allows retries (attempt + k)
    → k < fuel
    → ((j : ℕ) → j < k → ping (attempt + j) ≡ false)
    → ping (attempt + k) ≡ true
    → connect_from ping retries fuel attempt ≡ some (connected (attempt + k))
unfolding connect_from
connect_from-hit ping retries k zero attempt a lt h e = absurd (omega arith)
connect_from-hit ping retries zero (suc fuel) attempt a lt h e =
    let same : attempt + 0 ≡ attempt = omega arith in
    rw same (
      round-hit ping retries fuel attempt (Allows-sooner retries _ attempt a (omega arith))
        (ap ping (sym same) ∙ e))
connect_from-hit ping retries (suc k) (suc fuel) attempt a lt h e =
    let same : attempt + suc k ≡ suc attempt + k = omega arith in
    round-miss ping retries fuel attempt (Allows-sooner retries _ (suc attempt) a (omega arith))
      (ap ping (omega arith) ∙ h 0 (omega arith))
    ∙ connect_from-hit ping retries k fuel (suc attempt)
        (Allows-sooner retries _ (suc attempt + k) a (omega arith)) (omega arith)
        (λ j lt'. ap ping (omega arith) ∙ h (suc j) (omega arith)) (ap ping (sym same) ∙ e)
    ∙ ap (λ i. some (connected i)) (sym same)

-- The loop ends at the first attempt whose Ping succeeds, where the number of retries is -1 or
-- allows it: one round for each attempt is enough.
pub connect-hit :
    (ping : ℕ → Bool) (retries : ℤ) (k : ℕ)
    → Allows retries k
    → ((j : ℕ) → j < k → ping j ≡ false)
    → ping k ≡ true
    → connect ping retries (suc k) ≡ some (connected k)
unfolding connect
connect-hit ping retries k a h e =
    let same : 0 + k ≡ k = omega arith in
    connect_from-hit ping retries k (suc k) 0 (Allows-sooner retries k (0 + k) a (omega arith))
      (omega arith) (λ j lt. ap ping (omega arith) ∙ h j lt) (ap ping same ∙ e)
    ∙ ap (λ i. some (connected i)) same

connect_from-miss :
    (ping : ℕ → Bool) (k attempt : ℕ)
    → ((j : ℕ) → j ≤ k → ping (attempt + j) ≡ false)
    → connect_from ping (pos (attempt + k)) (suc k) attempt ≡ some gave_up
connect_from-miss ping zero attempt h =
    let same : attempt + 0 ≡ attempt = omega arith in
    rw same (round_last ping 0 attempt (ap ping (sym same) ∙ h 0 (omega arith)))
connect_from-miss ping (suc k) attempt h =
    let same : attempt + suc k ≡ suc attempt + k = omega arith in
    round-miss ping (pos (attempt + suc k)) (suc k) attempt (omega arith)
      (ap ping (omega arith) ∙ h 0 (omega arith))
    ∙ ap (λ n. connect_from ping (pos n) (suc k) (suc attempt)) same
    ∙ connect_from-miss ping k (suc attempt)
        (λ j le. ap ping (omega arith) ∙ h (suc j) (omega arith))

-- With a number of retries n that is not negative and no success among the attempts up to n, the
-- program ends, after one round more than n.
connect-miss :
    (ping : ℕ → Bool) (n : ℕ)
    → ((j : ℕ) → j ≤ n → ping j ≡ false)
    → connect ping (pos n) (suc n) ≡ some gave_up
unfolding connect
connect-miss ping n h =
    let same : n ≡ 0 + n = omega arith in
    ap (λ m. connect_from ping (pos m) (suc n) 0) same
    ∙ connect_from-miss ping n 0 (λ j le. ap ping (omega arith) ∙ h j le)
