-- ===== src/Stats/Counting.antt =====
-- `CountingStream` of `src/stats.rs`: the client's side of a connection that is copied in user space.

use rfw.Base.{
  Bool-cases, List, [], arith, if◌then◌else◌, inl, inr, ltb, ltb→le, refl, ℕ, ◌%◌, ◌+◌, ◌∷◌, ◌≡◌,
  ◌≤◌,
}
use rfw.Stats.{ForwarderStats, add_received, add_sent, u64_max}

-- What a poll of the inner stream gives; `ready` tells how many bytes went through.
pub data Poll : Type 0 where
  pending failed : Poll
  ready : ℕ → Poll

-- `poll_read`: what the client sends.
unfoldable pub poll_read : Poll → ForwarderStats → ForwarderStats
poll_read (ready n) s = if ltb 0 n then add_sent s n else s
poll_read _ s = s

-- `poll_write`: what goes back to the client.
unfoldable pub poll_write : Poll → ForwarderStats → ForwarderStats
poll_write (ready n) s = if ltb 0 n then add_received s n else s
poll_write _ s = s

-- A read of the client's bytes, or a write to it.
pub data Polled : Type 0 where
  read write : Poll → Polled

unfoldable pub count_polls : List Polled → ForwarderStats → ForwarderStats
count_polls [] s = s
count_polls (read p ∷ polls) s = count_polls polls (poll_read p s)
count_polls (write p ∷ polls) s = count_polls polls (poll_write p s)

abbrev passed : Poll → ℕ
passed (ready n) = n
passed _ = 0

-- The bytes that were read.
abbrev pub sent_in : List Polled → ℕ
sent_in [] = 0
sent_in (read p ∷ polls) = passed p + sent_in polls
sent_in (write p ∷ polls) = sent_in polls

-- The bytes that were written.
abbrev pub received_in : List Polled → ℕ
received_in [] = 0
received_in (read p ∷ polls) = received_in polls
received_in (write p ∷ polls) = passed p + received_in polls

abbrev pub Counts : ForwarderStats → ForwarderStats → ℕ → ℕ → Type 0
Counts s s' sent received =
    (s'.bytes_sent ≡ (s.bytes_sent + sent) % (u64_max + 1))
    × (s'.bytes_received ≡ (s.bytes_received + received) % (u64_max + 1))

abbrev pub Fits : ForwarderStats → Type 0
Fits s = (s.bytes_sent ≤ u64_max) × (s.bytes_received ≤ u64_max)

poll_read-Counts : (p : Poll) (s : ForwarderStats) → Fits s → Counts s (poll_read p s) (passed p) 0
unfolding poll_read add_sent
poll_read-Counts pending s (a, b) = (omega arith, omega arith)
poll_read-Counts failed s (a, b) = (omega arith, omega arith)
poll_read-Counts (ready n) s (a, b) = elim (Bool-cases (ltb 0 n)) [
  | inl t ↦ rw t (refl, omega arith)
  | inr f ↦ let none_read = ltb→le 0 n f in rw f (omega arith, omega arith)
]

poll_write-Counts :
    (p : Poll) (s : ForwarderStats) → Fits s → Counts s (poll_write p s) 0 (passed p)
unfolding poll_write add_received
poll_write-Counts pending s (a, b) = (omega arith, omega arith)
poll_write-Counts failed s (a, b) = (omega arith, omega arith)
poll_write-Counts (ready n) s (a, b) = elim (Bool-cases (ltb 0 n)) [
  | inl t ↦ rw t (omega arith, refl)
  | inr f ↦ let none_written = ltb→le 0 n f in rw f (omega arith, omega arith)
]

Counts-trans :
    (s s' s'' : ForwarderStats) (m n m' n' sent received : ℕ)
    → Counts s s' m n
    → Counts s' s'' m' n'
    → m + m' ≡ sent
    → n + n' ≡ received
    → Counts s s'' sent received
Counts-trans s s' s'' m n m' n' sent received (a, b) (c, d) e f =
    (omega (arith, a, c, e), omega (arith, b, d, f))

-- From counters within 64 bits, over any polls, whether they give bytes, errors or nothing yet, the
-- counters grow by exactly the bytes that were read and written, as 64-bit numbers.
pub count_polls-Counts :
    (polls : List Polled) (s : ForwarderStats)
    → Fits s
    → Counts s (count_polls polls s) (sent_in polls) (received_in polls)
unfolding count_polls
count_polls-Counts [] s (a, b) = (omega arith, omega arith)
count_polls-Counts (read p ∷ polls) s fits =
    let s' = poll_read p s in
    let one = poll_read-Counts p s fits in
    let fits' : Fits s' = (omega (arith, one.0), omega (arith, one.1)) in
    Counts-trans s s' (count_polls polls s') (passed p) 0 (sent_in polls) (received_in polls)
      (sent_in (read p ∷ polls)) (received_in (read p ∷ polls)) one
      (count_polls-Counts polls s' fits') (omega arith) (omega arith)
count_polls-Counts (write p ∷ polls) s fits =
    let s' = poll_write p s in
    let one = poll_write-Counts p s fits in
    let fits' : Fits s' = (omega (arith, one.0), omega (arith, one.1)) in
    Counts-trans s s' (count_polls polls s') 0 (passed p) (sent_in polls) (received_in polls)
      (sent_in (write p ∷ polls)) (received_in (write p ∷ polls)) one
      (count_polls-Counts polls s' fits') (omega arith) (omega arith)
