-- ===== src/Udp/Offload.antt =====
-- `mod offload` of `src/udp.rs`: bursts of datagrams in one buffer, and their sending in few system
-- calls.
pub mod Account
pub mod Bounds
pub mod Sends
use rfw.Text.Decimal.{u16_max}
use rfw.Base.{
  Bool, List, Option, [], drop, if◌then◌else◌, length, ltb, none, some, suc, take, zero, ℕ, ◌&&◌,
  ◌*◌, ◌++◌, ◌+◌, ◌-◌, ◌/◌, ◌||◌, ◌∷◌,
}
use rfw.Udp.Chunks.{Bytes}
use rfw.Config.Settings.{clamp}
use rfw.Udp.Errors.{IoError, os_error_is, other_kind}

abbrev pub max_gso_segments : ℕ
max_gso_segments = 64

abbrev pub gso_max_payload : ℕ
gso_max_payload = 65_507

-- What a socket does: how the next sends end, `none` for a success and all after the last successes,
-- and what was sent, the latest last: the bytes, and the segment size, 0 for a plain datagram.
pub record Wire : Type 0 where
  pub outcomes : List (Option IoError)
  pub sent : List (Bytes × ℕ)

abbrev sent_as : Bytes → ℕ → List (Option IoError) → Wire → Wire × Option IoError
sent_as chunk seg [] w = (record w { sent = w.sent ++ (chunk, seg) ∷ [] }, none)
sent_as chunk seg (none ∷ later) w =
    (record { outcomes = later; sent = w.sent ++ (chunk, seg) ∷ [] }, none)
sent_as chunk seg (some e ∷ later) w = (record w { outcomes = later }, some e)

-- One system call that sends.
unfoldable pub send_one : Bytes → ℕ → Wire → Wire × Option IoError
send_one chunk seg w = sent_as chunk seg w.outcomes w

unfoldable pub is_coalesced : ℕ → ℕ → Bool
is_coalesced len segment = ltb 0 segment && ltb segment len

-- `div_ceil` for a burst.
unfoldable pub segments : ℕ → ℕ → ℕ
unfolding is_coalesced
segments len segment = if is_coalesced len segment then (len + segment - 1) / segment else 1

-- A segment larger than `gso_max_payload` is taken as it is. At 0 the source panics; its callers have a
-- burst with `is_coalesced`, whose segment is not 0.
unfoldable pub chunk_bytes : ℕ → ℕ
chunk_bytes segment = segment * clamp 1 max_gso_segments (gso_max_payload / segment)

-- `EINVAL`, `EIO` and `EMSGSIZE` of Linux.
unfoldable pub is_fallback_error : IoError → Bool
is_fallback_error e = os_error_is 22 e || os_error_is 5 e || os_error_is 90 e

-- `stuck` is for a loop of the model that ran out of fuel.
pub data GsoSend : Type 0 where
  sent_all stuck : GsoSend
  stopped : ℕ → IoError → GsoSend

-- `from_raw_os_error(EINVAL)`.
abbrev pub invalid_input : IoError
invalid_input = record { error_kind = other_kind; raw_os_error = some 22 }

-- The loop at offset `off`, with the bytes behind it.
pub send_from : ℕ → ℕ → ℕ → ℕ → Bytes → Wire → Wire × GsoSend
unfolding send_one
send_from fuel step segment off [] w = (w, sent_all)
send_from zero step segment off (b ∷ rest) w = (w, stuck)
send_from (suc fuel) step segment off (b ∷ rest) w =
    let chunk = take step (b ∷ rest) in
    let (w', failed) = send_one chunk (if ltb segment (length chunk) then segment else 0) w in
    elim failed [
      | some e ↦ (w', stopped off e)
      | none ↦ send_from fuel step segment (off + length chunk) (drop step (b ∷ rest)) w'
    ]

-- A round sends at least one byte, so the fuel is enough.
unfoldable pub send_chunks : Bytes → ℕ → Wire → Wire × GsoSend
unfolding send_from
send_chunks buf segment w =
    if ltb u16_max segment
    then (w, stopped 0 invalid_input)
    else send_from (length buf) (chunk_bytes segment) segment 0 buf w
