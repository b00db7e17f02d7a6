-- ===== src/Notify/Worker/Retries.antt =====
-- The requests of one delivery.

use rfw.Text.{Text}
use rfw.Base.{
  All, List, [], all, ap, append_assoc, arith, false, if◌then◌else◌, inl, inr, length, ltb, refl,
  subst, suc, true, zero, ℕ, ◌++◌, ◌+◌, ◌∙◌, ◌∷◌, ◌≡◌, ◌≤◌, ◌⊎◌,
}
use rfw.Notify.Worker.{
  Delivery, Link, SendError, attempts, deliver, judge, max_attempts, max_retry_after, next_answer,
  no_attempt,
}
use rfw.Notify.Worker.Answers.{
  Account, Judged, Paced, SpentAt, SpentAt-suc, copies, ends, judge-Judged, replies, total_wait,
}

Sum-cases {ℓ κ} :
    {A : Type ℓ} {B : Type κ} (s : A ⊎ B) → ((a : A) × (s ≡ inl a)) ⊎ ((b : B) × (s ≡ inr b))
Sum-cases (inl a) = inl (a, refl)
Sum-cases (inr b) = inr (b, refl)

abbrev pub Attempted : ℕ → ℕ → Text → Link → Link × Delivery → Type 0
Attempted left attempt text k (k', r) =
    (waits : List ℕ) × (length waits ≤ left)
    × (k'.posted ≡ k.posted ++ copies (suc (length waits)) text)
    × (k'.waited ≡ k.waited + total_wait waits)
    × All (λ w. w ≤ max_retry_after) waits
    × Paced attempt (replies (suc (length waits)) k.answers) waits
    × Account (replies (suc (length waits)) k.answers) r
    × SpentAt (length waits) left r

attempts_lem :
    (left attempt : ℕ) (last : SendError) (text : Text) (k : Link)
    → attempt + left ≡ 3
    → Attempted left attempt text k (attempts (suc left) attempt last text k)
unfolding attempts
attempts_lem zero attempt last text k e =
    let (a, more) = next_answer k.answers in
    let judged = judge-Judged attempt a (omega arith) in
    let now : ltb attempt max_attempts ≡ false = ground (arith, e) in
    elim (Sum-cases (judge attempt a)) [
      | inl (end, h) ↦
          let (account, spent_at) = ends attempt a end 0 (subst (Judged attempt a) h judged) in
          rw (attempts, h) ([], omega arith, refl, omega arith, tt, tt, account, spent_at)
      | inr ((err', delay), h) ↦
          let (passing, small, pause) = subst (Judged attempt a) h judged in
          rw (attempts, h, now) ([], omega arith, refl, omega arith, tt, tt, passing, refl)
    ]
attempts_lem (suc left) attempt last text k e =
    let (a, more) = next_answer k.answers in
    let judged = judge-Judged attempt a (omega arith) in
    let early : ltb attempt max_attempts ≡ true = ground (arith, e) in
    elim (Sum-cases (judge attempt a)) [
      | inl (end, h) ↦
          let (account, spent_at) =
            ends attempt a end (suc left) (subst (Judged attempt a) h judged) in
          rw (attempts, h) ([], omega arith, refl, omega arith, tt, tt, account, spent_at)
      | inr ((err', delay), h) ↦
          let (passing, small, pause) = subst (Judged attempt a) h judged in
          let k'' : Link =
            if ltb attempt max_attempts
            then record {
              answers = more;
              posted = k.posted ++ text ∷ [];
              waited = k.waited + delay;
            }
            else record { answers = more; posted = k.posted ++ text ∷ []; waited = k.waited } in
          let logged : k''.posted ≡ k.posted ++ text ∷ [] = rw early refl in
          let slept : k''.waited ≡ k.waited + delay = rw early refl in
          let unread : k''.answers ≡ more = rw early refl in
          let (waits, most, posted, waited, all, paced, account, spent_at) =
            attempts_lem left (attempt + 1) err' text k'' (omega (arith, e)) in
          let r = (attempts (suc left) (attempt + 1) err' text k'').1 in
          rw (attempts, h)
            (
              delay ∷ waits,
              omega (arith, most),
              posted
                  ∙ ap (λ l. l ++ copies (suc (length waits)) text) logged
                  ∙ append_assoc k.posted (text ∷ []) (copies (suc (length waits)) text),
              omega (arith, waited, slept),
              (small, all),
              (
                pause,
                subst (λ l. Paced (attempt + 1) (replies (suc (length waits)) l) waits) unread
                    paced,
              ),
              (passing, subst (λ l. Account (replies (suc (length waits)) l) r) unread account),
              SpentAt-suc (length waits) left r spent_at,
            )
    ]

-- A delivery makes one request and, while the answers may pass (no answer, a status of 429 or one of
-- 500 to 599), another one after a wait, up to three of them, each with the text. A wait is 30 seconds
-- at most, and 1 second and then 2 unless the answer has a Retry-After header. The delivery succeeds
-- exactly when the last answer has a status of 200 to 299, it ends at once at any other status, and it
-- gives up on answers that may pass only after the third request.
pub deliver_lem :
    (text : Text) (k : Link)
    → let (k', r) = deliver text k in
      (waits : List ℕ) × (length waits ≤ 2)
      × (k'.posted ≡ k.posted ++ copies (suc (length waits)) text)
      × (k'.waited ≡ k.waited + total_wait waits)
      × All (λ w. w ≤ max_retry_after) waits
      × Paced 1 (replies (suc (length waits)) k.answers) waits
      × Account (replies (suc (length waits)) k.answers) r
      × SpentAt (length waits) 2 r
unfolding deliver
deliver_lem text k = attempts_lem 2 1 no_attempt text k refl
