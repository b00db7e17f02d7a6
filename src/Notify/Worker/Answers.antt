-- ===== src/Notify/Worker/Answers.antt =====
-- What `Worker::deliver` of `src/notify.rs` makes of one answer.

use rfw.Text.Decimal.{ParseIntError, parse_uint}
use rfw.Text.{Text, trim}
use rfw.Base.{
  Bool-cases, List, Option, Option-cases, Result, [], ap, arith, err, inl, inr, none, ok, refl,
  some, suc, zero, ℕ, ◌*◌, ◌+◌, ◌-◌, ◌<◌, ◌^◌, ◌∷◌, ◌≡◌, ◌≢◌, ◌≤◌, ◌⊎◌,
}
use rfw.Stats.{u64_max}
use rfw.Notify.Worker.{
  Answer, Delivery, SendError, answered, backoff, delivered, final, is_retryable, is_success, judge,
  max_retry_after, next_answer, parse_retry_after, retry_base_delay, seconds, spent, transport,
}

abbrev pub copies : ℕ → Text → List Text
copies zero text = []
copies (suc n) text = text ∷ copies n text

-- A delivery is spent only with the last attempt: `n` of `left` were followed by another one.
abbrev pub SpentAt : ℕ → ℕ → Delivery → Type 0
SpentAt n left (spent e) = n ≡ left
SpentAt n left _ = Unit

-- The answers to the next `n` requests.
abbrev pub replies : ℕ → List Answer → List Answer
replies zero answers = []
replies (suc n) answers = (next_answer answers).0 ∷ replies n (next_answer answers).1

abbrev pub total_wait : List ℕ → ℕ
total_wait [] = 0
total_wait (w ∷ ws) = w + total_wait ws

-- A status of 200 to 299.
abbrev pub Accepting : Answer → Type 0
Accepting (transport e) = ⊥
Accepting (answered status after body) = (200 ≤ status) × (status < 300)

-- No answer, or a status that may pass: 429 or 500 to 599.
abbrev pub Passing : Answer → Type 0
Passing (transport e) = Unit
Passing (answered status after body) = (status ≡ 429) ⊎ ((500 ≤ status) × (status < 600))

-- Any other status.
abbrev pub Refusing : Answer → Type 0
Refusing (transport e) = ⊥
Refusing (answered status after body) =
    ((status < 200) ⊎ (300 ≤ status)) × (status ≢ 429) × ((status < 500) ⊎ (600 ≤ status))

abbrev pub Ends : Answer → Delivery → Type 0
Ends a delivered = Accepting a
Ends a (final e) = Refusing a
Ends a (spent e) = Passing a

-- Every answer but the last one may pass, and the last one tells the result.
abbrev pub Account : List Answer → Delivery → Type 0
Account [] r = ⊥
Account (a ∷ []) r = Ends a r
Account (a ∷ b ∷ more) r = Passing a × Account (b ∷ more) r

backoff_small : (attempt : ℕ) → attempt ≤ 3 → backoff attempt ≤ max_retry_after
unfolding backoff
backoff_small zero h = omega arith
backoff_small (suc zero) h = omega arith
backoff_small (suc (suc zero)) h = omega arith
backoff_small (suc (suc (suc zero))) h = omega arith
backoff_small (suc (suc (suc (suc n)))) h = absurd (omega arith)

seconds_small : (r : Result ParseIntError ℕ) (d : ℕ) → seconds r ≡ some d → d ≤ max_retry_after
seconds_small (ok s) d h = ground (arith, h)
seconds_small (err e) d h = absurd (ground (arith, h))

parse_retry_after_small :
    (v : Option Text) (d : ℕ) → parse_retry_after v ≡ some d → d ≤ max_retry_after
unfolding parse_retry_after
parse_retry_after_small none d h = absurd (ground (arith, h))
parse_retry_after_small (some v) d h = seconds_small (parse_uint u64_max (trim v)) d h

-- The wait after a request: 1 s after the first one, and twice as long after each further one, unless
-- the answer has a `Retry-After` header.
abbrev pub Pause : ℕ → Answer → ℕ → Type 0
Pause attempt (transport e) w = w ≡ retry_base_delay * 2 ^ (attempt - 1)
Pause attempt (answered status none body) w = w ≡ retry_base_delay * 2 ^ (attempt - 1)
Pause attempt (answered status (some after) body) w = Unit

-- The waits behind the requests from the one numbered `attempt` on.
abbrev pub Paced : ℕ → List Answer → List ℕ → Type 0
Paced attempt answers [] = Unit
Paced attempt [] (w ∷ ws) = ⊥
Paced attempt (a ∷ answers) (w ∷ ws) = Pause attempt a w × Paced (attempt + 1) answers ws

backoff_lem : (attempt : ℕ) → attempt ≤ 3 → backoff attempt ≡ retry_base_delay * 2 ^ (attempt - 1)
unfolding backoff
backoff_lem zero h = refl
backoff_lem (suc zero) h = refl
backoff_lem (suc (suc zero)) h = refl
backoff_lem (suc (suc (suc zero))) h = refl
backoff_lem (suc (suc (suc (suc n)))) h = absurd (omega arith)

Pause-answered :
    (attempt status : ℕ) (after : Option Text) (body : Text)
    → attempt ≤ 3
    → Pause attempt
        (answered status after body)
        (elim (parse_retry_after after) as (λ x. ℕ) [ some d ↦ d | none ↦ backoff attempt ])
unfolding parse_retry_after
Pause-answered attempt status none body h = backoff_lem attempt h
Pause-answered attempt status (some after) body h = tt

-- What is made of an answer: its kind, and no delay longer than the longest `Retry-After`.
abbrev pub Judged : ℕ → Answer → Delivery ⊎ (SendError × ℕ) → Type 0
Judged attempt a (inl (spent e)) = ⊥
Judged attempt a (inl r) = Ends a r
Judged attempt a (inr (e, d)) = Passing a × (d ≤ max_retry_after) × Pause attempt a d

pub judge-Judged : (attempt : ℕ) (a : Answer) → attempt ≤ 3 → Judged attempt a (judge attempt a)
unfolding judge is_retryable
judge-Judged attempt (transport e) h = (tt, backoff_small attempt h, backoff_lem attempt h)
judge-Judged attempt (answered status after body) h =
    let delay : (elim (parse_retry_after after) as (λ x. ℕ) [ some d ↦ d | none ↦ backoff attempt ])
        ≤ max_retry_after =
      elim (Option-cases (parse_retry_after after)) [
        | inl nothing ↦ rw nothing (backoff_small attempt h)
        | inr (d, given) ↦ rw given (parse_retry_after_small after d given)
      ] in
    elim (Bool-cases (is_success status)) [
      | inl t ↦ rw t ground (arith, t)
      | inr f ↦ elim (Bool-cases (is_retryable status)) [
        | inl t ↦ rw (f, t) (ground (arith, t), delay, Pause-answered attempt status after body h)
        | inr g ↦ rw (f, g) ground (arith, f, g)
      ]
    ]

pub ends :
    (attempt : ℕ) (a : Answer) (end : Delivery) (left : ℕ)
    → Judged attempt a (inl end)
    → Ends a end × SpentAt 0 left end
ends attempt a delivered left h = (h, tt)
ends attempt a (final e) left h = (h, tt)
ends attempt a (spent e) left h = elim h [ ]

pub SpentAt-suc : (n left : ℕ) (r : Delivery) → SpentAt n left r → SpentAt (suc n) (suc left) r
SpentAt-suc n left delivered h = tt
SpentAt-suc n left (final e) h = tt
SpentAt-suc n left (spent e) h = ap suc h
