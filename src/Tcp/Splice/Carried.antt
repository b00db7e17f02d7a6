-- ===== src/Tcp/Splice/Carried.antt =====
-- What a direction carries.

use rfw.Text.{split}
use rfw.Base.{
  Bool-cases, List, Option, Option-cases, Result, [], ap, append-nil, append_assoc, arith, drop,
  err, if◌then◌else◌, inl, inr, length, length-append, none, ok, refl, some, subst, suc, sym, take,
  take-append-drop, true, zero, ℕ, ◌%◌, ◌++◌, ◌+◌, ◌∙◌, ◌∷◌, ◌≡◌, ◌≤◌,
}
use rfw.Stats.{u64_max}
use rfw.Udp.Chunks.{Bytes}
use rfw.Udp.Errors.{IoError, is_would_block}
use rfw.Tcp.Splice.{
  Sink, Spliced, broken, deliver_bytes, drain_pipe, finished, splice_dir, splice_from, stalled,
  write_zero,
}

-- All that the source gives, up to its end or an error.
abbrev pub stream : List (Result IoError Bytes) → Bytes
stream [] = []
stream (ok [] ∷ reads) = []
stream (ok (b ∷ bytes) ∷ reads) = (b ∷ bytes) ++ stream reads
stream (err e ∷ reads) = if is_would_block e then stream reads else []

-- The bytes went on to the destination, and were counted.
abbrev pub Delivered : Bytes → Sink → Sink → Type 0
Delivered bytes k k' =
    (k'.delivered ≡ k.delivered ++ bytes)
    × (k'.counter ≡ (k.counter + length bytes) % (u64_max + 1))

-- How a direction ended with `rest` of its source left: nothing is left if it finished, and then alone
-- the destination's write side is closed.
abbrev pub Ended : Bytes → Sink → Sink → Spliced → Type 0
Ended rest k k' finished = (rest ≡ []) × (k'.half_closed ≡ true)
Ended rest k k' _ = k'.half_closed ≡ k.half_closed

-- The source splits into what went on and the rest.
abbrev pub Split : Bytes → Bytes → Bytes → Sink → Sink → Type 0
Split source bytes rest k k' = (source ≡ bytes ++ rest) × Delivered bytes k k'

Delivered-none : (k : Sink) → k.counter ≤ u64_max → Delivered [] k k
Delivered-none k small = (sym (append-nil k.delivered), omega arith)

Split-more :
    (xs left bytes rest : Bytes) (k k' k'' : Sink)
    → Delivered xs k k'
    → Split left bytes rest k' k''
    → Split (xs ++ left) (xs ++ bytes) rest k k''
Split-more xs left bytes rest k k' k'' (a, n) (same, (b, m)) = (
  ap (λ l. xs ++ l) same ∙ sym (append_assoc xs bytes rest),
  (
    b ∙ ap (λ l. l ++ bytes) a ∙ append_assoc k.delivered xs bytes,
    omega (arith, n, m, length-append xs bytes),
  ),
)

-- What emptying the pipe comes to.
abbrev Emptied : Bytes → Option Spliced → Type 0
Emptied rest none = rest ≡ []
Emptied rest (some finished) = ⊥
Emptied rest (some _) = Unit

abbrev Drained : Bytes → Sink → Sink → Option Spliced → Type 0
Drained left k k' o =
    (bytes : Bytes) × (rest : Bytes) × Split left bytes rest k k'
    × (k'.half_closed ≡ k.half_closed)
    × (k'.counter ≤ u64_max)
    × Emptied rest o

left_whole :
    (left : Bytes) (k : Sink) (o : Option Spliced)
    → k.counter ≤ u64_max
    → Emptied left o
    → Drained left k k o
left_whole left k o small e = ([], left, (refl, Delivered-none k small), refl, small, e)

drain_pipe_lem :
    (writes : List (Result IoError ℕ)) (left : Bytes) (k : Sink)
    → k.counter ≤ u64_max
    → let (writes', k', o) = drain_pipe writes left k in Drained left k k' o
unfolding drain_pipe
drain_pipe_lem writes [] k small = left_whole [] k none small refl
drain_pipe_lem [] (b ∷ left) k small = left_whole (b ∷ left) k (some stalled) small tt
drain_pipe_lem (ok zero ∷ writes) (b ∷ left) k small =
    left_whole (b ∷ left) k (some write_zero) small tt
drain_pipe_lem (ok (suc m) ∷ writes) (b ∷ left) k small =
    let xs = take (suc m) (b ∷ left) in
    let behind = drop (suc m) (b ∷ left) in
    let k' = deliver_bytes xs k in
    let k'' = (drain_pipe writes behind k').1 in
    let (bytes, rest, split, side, small', e) = drain_pipe_lem writes behind k' (omega arith) in
    (
      xs ++ bytes,
      rest,
      subst (λ l. Split l (xs ++ bytes) rest k k'') (take-append-drop (suc m) (b ∷ left))
          (Split-more xs behind bytes rest k k' k'' (refl, refl) split),
      side,
      small',
      e,
    )
drain_pipe_lem (err e ∷ writes) (b ∷ left) k small = elim (Bool-cases (is_would_block e)) [
  | inl t ↦ rw (drain_pipe, t) (drain_pipe_lem writes (b ∷ left) k small)
  | inr f ↦ rw (drain_pipe, f) (left_whole (b ∷ left) k (some (broken e)) small tt)
]

abbrev pub Carried : Bytes → Sink → Sink × Spliced → Type 0
Carried source k (k', r) =
    (bytes : Bytes) × (rest : Bytes) × Split source bytes rest k k' × Ended rest k k' r

Ended-since :
    (rest : Bytes) (k k' k'' : Sink) (r : Spliced)
    → k'.half_closed ≡ k.half_closed
    → Ended rest k' k'' r
    → Ended rest k k'' r
Ended-since rest k k' k'' finished side (all, closed) = (all, closed)
Ended-since rest k k' k'' write_zero side same = same ∙ side
Ended-since rest k k' k'' stalled side same = same ∙ side
Ended-since rest k k' k'' (broken e) side same = same ∙ side

Emptied-Ended :
    (rest rest' : Bytes) (k k' : Sink) (r : Spliced)
    → Emptied rest (some r)
    → k'.half_closed ≡ k.half_closed
    → Ended rest' k k' r
Emptied-Ended rest rest' k k' finished e side = absurd e
Emptied-Ended rest rest' k k' write_zero e side = side
Emptied-Ended rest rest' k k' stalled e side = side
Emptied-Ended rest rest' k k' (broken x) e side = side

splice_from_lem :
    (reads : List (Result IoError Bytes)) (writes : List (Result IoError ℕ)) (k : Sink)
    → k.counter ≤ u64_max
    → Carried (stream reads) k (splice_from reads writes k)
unfolding splice_from
splice_from_lem [] writes k small = ([], [], (refl, Delivered-none k small), refl)
splice_from_lem (ok [] ∷ reads) writes k small =
    ([], [], (refl, Delivered-none k small), (refl, refl))
splice_from_lem (ok (b ∷ bytes) ∷ reads) writes k small =
    let step = drain_pipe writes (b ∷ bytes) k in
    let last = splice_from reads step.0 step.1 in
    let (xs, rest, split, side, small', e) = drain_pipe_lem writes (b ∷ bytes) k small in
    elim (Option-cases step.2) [
      | inl goes ↦
          let (ys, rest', split', ends) = splice_from_lem reads step.0 step.1 small' in
          let done : rest ≡ [] = subst (Emptied rest) goes e in
          let all : xs ≡ b ∷ bytes = sym (split.0 ∙ ap (λ l. xs ++ l) done ∙ append-nil xs) in
          rw (splice_from, goes)
            (
              xs ++ ys,
              rest',
              subst (λ l. Split (l ++ stream reads) (xs ++ ys) rest' k last.0) all
                  (Split-more xs (stream reads) ys rest' k step.1 last.0 split.1 split'),
              Ended-since rest' k step.1 last.0 last.1 side ends,
            )
      | inr (r, stops) ↦
          rw (splice_from, stops)
            (
              xs,
              rest ++ stream reads,
              (ap (λ l. l ++ stream reads) split.0 ∙ append_assoc xs rest (stream reads), split.1),
              Emptied-Ended rest (rest ++ stream reads) k step.1 r (subst (Emptied rest) stops e)
                  side,
            )
    ]
splice_from_lem (err e ∷ reads) writes k small = elim (Bool-cases (is_would_block e)) [
  | inl t ↦ rw (splice_from, t) (splice_from_lem reads writes k small)
  | inr f ↦ rw (splice_from, f) ([], [], (refl, Delivered-none k small), refl)
]

-- When the counter of a direction starts within 64 bits, what its source gives is a first part, which
-- reached the destination in order and was counted, followed by a rest. If the direction finished, there
-- is no rest and the write side of the destination is closed; if it did not, the write side is as before.
pub splice_dir_lem :
    (reads : List (Result IoError Bytes)) (writes : List (Result IoError ℕ)) (k : Sink)
    → k.counter ≤ u64_max
    → Carried (stream reads) k (splice_dir reads writes k)
unfolding splice_dir
splice_dir_lem = splice_from_lem
