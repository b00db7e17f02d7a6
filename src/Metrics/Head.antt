-- ===== src/Metrics/Head.antt =====
-- How `handle_conn` of `src/metrics.rs` reads the head of a request, and `parse_request_target`.
pub mod Bounds
pub mod Pieces
pub mod Scan
use rfw.Base.{
  Bool, List, Option, Result, [], drop, err, false, if◌then◌else◌, keep_if, leb, length, list_eq,
  nat_eq, none, not, ok, some, take, true, zero, ℕ, ◌++◌, ◌-◌, ◌==◌, ◌||◌, ◌∷◌,
}
use rfw.Text.{Text, codes, is_whitespace, onto_head, split_once}
use rfw.Metrics.{crlf}
use rfw.Udp.Chunks.{Bytes}
use rfw.Udp.Errors.{IoError}

abbrev pub max_request_bytes : ℕ
max_request_bytes = 8192

-- `windows(4).any(..)`: the first four bytes are tried from every place, and a shorter rest is never
-- the end of a head.
unfoldable pub any_window : Bytes → Bool
any_window [] = false
any_window (b ∷ s) = (take 4 (b ∷ s) == (crlf ++ crlf)) || any_window s

-- How the reading ends: with the bytes of the head, with an error, or at the deadline.
pub data HeadRead : Type 0 where
  head_of : Bytes → HeadRead
  read_failed : IoError → HeadRead
  deadline : HeadRead

-- The loop of `read_head`, with `buf` and `scanned`. `reads` are what the next reads give, until the
-- deadline.
unfoldable pub read_head : List (Result IoError Bytes) → Bytes → ℕ → HeadRead
read_head [] buf scanned = deadline
read_head (err e ∷ reads) buf scanned = read_failed e
read_head (ok [] ∷ reads) buf scanned = head_of buf
read_head (ok (b ∷ bytes) ∷ reads) buf scanned =
    let buf' = buf ++ b ∷ bytes in
    let rest = read_head reads buf' (length buf') in
    if any_window (drop (scanned - 3) buf') || leb max_request_bytes (length buf')
    then head_of buf'
    else rest

strip_cr : Text → Text
strip_cr [] = []
strip_cr (c ∷ []) = if c == 13 then [] else c ∷ []
strip_cr (c ∷ d ∷ s) = c ∷ strip_cr (d ∷ s)

-- `lines().next()`.
unfoldable pub first_line : Text → Option Text
unfolding strip_cr
first_line [] = none
first_line (c ∷ s) = elim (split_once 10 (c ∷ s)) [
  | none ↦ some (c ∷ s)
  | some (line, _) ↦ some (strip_cr line)
]

split_at_space : Text → List Text
split_at_space [] = [] ∷ []
split_at_space (c ∷ s) =
    let parts = split_at_space s in if is_whitespace c then [] ∷ parts else onto_head c parts

-- `split_whitespace`.
unfoldable pub split_whitespace : Text → List Text
unfolding split_at_space
split_whitespace s = keep_if (λ w. not (w == [])) (split_at_space s)

second_of_get : List Text → Option Text
second_of_get (verb ∷ target ∷ _) = if verb == codes "GET" then some target else none
second_of_get _ = none

unfoldable pub parse_request_target : Text → Option Text
unfolding second_of_get first_line split_whitespace
parse_request_target head = elim (first_line head) [
  | none ↦ none
  | some line ↦ second_of_get (split_whitespace line)
]
