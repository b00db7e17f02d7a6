-- ===== src/Tcp/Splice.antt =====
-- `mod splice` of `src/forwarder.rs`: one direction of a connection through a pipe of the kernel.
pub mod Carried
use rfw.Base.{
  Bool, List, Option, Result, [], drop, err, false, if◌then◌else◌, leb, length, max, min, none, ok,
  some, suc, take, true, zero, ℕ, ◌%◌, ◌++◌, ◌+◌, ◌∷◌,
}
use rfw.Stats.{u64_max}
use rfw.Udp.Chunks.{Bytes}
use rfw.Udp.Errors.{IoError, is_would_block}

abbrev pub min_useful_capacity : ℕ
min_useful_capacity = 32_768

unfoldable pub capacity_ok : ℕ → ℕ → Bool
capacity_ok got want = leb (min want min_useful_capacity) got

-- Why the path is not used.
pub data Unavailable : Type 0 where
  no_pipe : IoError → Unavailable
  limited : ℕ → ℕ → Unavailable

-- `Pipes::new`, which gives the chunk: what the system gives for each pipe is an error or a capacity.
unfoldable pub pipes : ℕ → Result IoError ℕ → Result IoError ℕ → Result Unavailable ℕ
pipes size (err e) r2c = err (no_pipe e)
pipes size (ok c) (err e) = err (no_pipe e)
pipes size (ok c) (ok r) =
    let want = max size 4096 in
    let got = min c r in if capacity_ok got want then ok (min got want) else err (limited got want)

-- What reached the destination, the counter of the direction, and whether its write side was closed.
pub record Sink : Type 0 where
  pub delivered : Bytes
  pub counter : ℕ
  pub half_closed : Bool

-- `stalled` waits for readiness that does not come.
pub data Spliced : Type 0 where
  finished write_zero stalled : Spliced
  broken : IoError → Spliced

-- `on_bytes`: `add_sent` or `add_received`.
abbrev deliver_bytes : Bytes → Sink → Sink
deliver_bytes bytes k = record k {
  delivered = k.delivered ++ bytes;
  counter = (k.counter + length bytes) % (u64_max + 1);
}

-- From the pipe to the destination until `left` is gone. `writes` are what the next calls give: an
-- error, or how many bytes the destination has room for.
drain_pipe :
    List (Result IoError ℕ) → Bytes → Sink → List (Result IoError ℕ) × Sink × Option Spliced
drain_pipe writes [] k = (writes, k, none)
drain_pipe [] (b ∷ left) k = ([], k, some stalled)
drain_pipe (ok zero ∷ writes) (b ∷ left) k = (writes, k, some write_zero)
drain_pipe (ok (suc m) ∷ writes) (b ∷ left) k =
    drain_pipe writes (drop (suc m) (b ∷ left)) (deliver_bytes (take (suc m) (b ∷ left)) k)
drain_pipe (err e ∷ writes) (b ∷ left) k = elim (is_would_block e) [
  | true ↦ drain_pipe writes (b ∷ left) k
  | false ↦ (writes, k, some (broken e))
]

-- `reads` are what the next calls give: an error, or the bytes that went into the pipe, none at the end
-- of the source.
splice_from : List (Result IoError Bytes) → List (Result IoError ℕ) → Sink → Sink × Spliced
unfolding drain_pipe
splice_from [] writes k = (k, stalled)
splice_from (ok [] ∷ reads) writes k = (record k { half_closed = true }, finished)
splice_from (ok (b ∷ bytes) ∷ reads) writes k =
    let (writes', k', stop) = drain_pipe writes (b ∷ bytes) k in
    elim stop [ some r ↦ (k', r) | none ↦ splice_from reads writes' k' ]
splice_from (err e ∷ reads) writes k = elim (is_would_block e) [
  | true ↦ splice_from reads writes k
  | false ↦ (k, broken e)
]

unfoldable pub splice_dir :
    List (Result IoError Bytes) → List (Result IoError ℕ) → Sink → Sink × Spliced
unfolding splice_from
splice_dir reads writes k = splice_from reads writes k
