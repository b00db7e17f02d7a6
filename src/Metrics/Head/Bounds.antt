-- ===== src/Metrics/Head/Bounds.antt =====
-- The buffer of a head is bounded.

use rfw.Base.{
  Bool-cases, List, Result, [], arith, drop, err, inl, inr, leb, leb→lt, length, length-append, ok,
  or-false, ℕ, ◌++◌, ◌+◌, ◌-◌, ◌<◌, ◌||◌, ◌∷◌, ◌≤◌,
}
use rfw.Udp.Chunks.{Bytes}
use rfw.Udp.Errors.{IoError}
use rfw.Metrics.Head.{HeadRead, any_window, head_of, max_request_bytes, read_head}

-- What a read gives fits the chunk that it is given.
abbrev pub Chunked : List (Result IoError Bytes) → Type 0
Chunked [] = Unit
Chunked (ok bytes ∷ reads) = (length bytes ≤ 1024) × Chunked reads
Chunked (err e ∷ reads) = Chunked reads

abbrev pub Small : HeadRead → Type 0
Small (head_of buf) = length buf < max_request_bytes + 1024
Small _ = Unit

read_head-Small_from :
    (reads : List (Result IoError Bytes)) (buf : Bytes) (scanned : ℕ)
    → Chunked reads
    → length buf < max_request_bytes
    → Small (read_head reads buf scanned)
unfolding read_head
read_head-Small_from [] buf scanned fits low = tt
read_head-Small_from (err e ∷ reads) buf scanned fits low = tt
read_head-Small_from (ok [] ∷ reads) buf scanned fits low = omega arith
read_head-Small_from (ok (b ∷ bytes) ∷ reads) buf scanned (fits, others) low =
    let buf' = buf ++ b ∷ bytes in
    let over : length buf' < max_request_bytes + 1024 =
      omega (arith, fits, length-append buf (b ∷ bytes)) in
    let ends = any_window (drop (scanned - 3) buf') in
    let long = leb max_request_bytes (length buf') in
    elim (Bool-cases (ends || long)) [
      | inl t ↦ rw t over
      | inr f ↦
          let short = leb→lt max_request_bytes (length buf') (or-false ends long f).1 in
          rw f (read_head-Small_from reads buf' (length buf') others short)
    ]

-- When no read gives more than its chunk of 1024 bytes, the head that is kept is shorter than the cap
-- and one chunk together, however much the client sends.
pub read_head-Small :
    (reads : List (Result IoError Bytes)) → Chunked reads → Small (read_head reads [] 0)
read_head-Small reads fits = read_head-Small_from reads [] 0 fits (omega arith)
