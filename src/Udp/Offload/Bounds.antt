-- ===== src/Udp/Offload/Bounds.antt =====
-- The bounds of the sends of `send_chunks`.

use native.Mathlib.Nat.{div-add-mod, mod-lt, mul-le-mul_left}
use rfw.Text.Decimal.{u16_max}
use rfw.Config.Settings.{clamp}
use rfw.Base.{
  All, All-imp, Bool-cases, List, [], append-nil, arith, false, inl, inr, length, ltb, suc, sym, ℕ,
  ◌%◌, ◌*◌, ◌++◌, ◌+◌, ◌-◌, ◌/◌, ◌<◌, ◌≡◌, ◌≤◌,
}
use rfw.Udp.Chunks.{Bytes, chunks}
use rfw.Udp.Offload.{Wire, chunk_bytes, gso_max_payload, max_gso_segments, send_chunks}
use rfw.Udp.Offload.Sends.{SentUpTo, on_wire, send_from_lem}

-- Whole segments, and one at least.
chunk_bytes_whole :
    (segment : ℕ)
    → 0 < segment
    → (m : ℕ) × (s : ℕ) × (chunk_bytes segment ≡ suc s) × (suc s ≡ m * segment)
unfolding chunk_bytes
chunk_bytes_whole segment pos =
    let m = clamp 1 max_gso_segments (gso_max_payload / segment) in
    let one : 1 ≤ m = ground arith in
    let some_bytes : 1 ≤ segment * m = grind arith in (m, segment * m - 1, omega arith, grind arith)

-- What a call puts on the wire, whatever the segment size.
pub send_chunks-SentUpTo :
    (buf : Bytes) (segment : ℕ) (w : Wire)
    → 0 < segment
    → 0 < length buf
    → let (w', r) = send_chunks buf segment w in
      (new : List (Bytes × ℕ)) × (w'.sent ≡ w.sent ++ new) × SentUpTo segment 0 buf (on_wire new) r
unfolding send_chunks chunks
send_chunks-SentUpTo buf segment w pos full = elim (Bool-cases (ltb u16_max segment)) [
  | inl t ↦ rw t (
    [],
    sym (append-nil w.sent),
    (0, omega arith, omega arith, let nothing : 0 * segment ≡ 0 = omega arith in rw nothing),
  )
  | inr f ↦
      let (m, s, bytes, whole) = chunk_bytes_whole segment pos in
      let (new, log, bound, upto) =
        send_from_lem segment m s pos whole (length buf) 0 buf w (omega arith) in
      rw (f, bytes) (new, log, upto)
]

-- Within both limits of a send, if a segment is.
clamp_lem :
    (q : ℕ)
    → 1 ≤ q
    → let m = clamp 1 max_gso_segments q in (1 ≤ m) × (m ≤ q) × (m ≤ max_gso_segments)
clamp_lem q h = ground arith

div_pos : (n d : ℕ) → 0 < d → d ≤ n → 1 ≤ n / d
div_pos n d pos le = elim (Bool-cases (ltb (n / d) 1)) [
  | inl t ↦
      let none_whole : n / d ≡ 0 = ground (arith, t) in
      let rest : n % d < d = mod-lt n pos in
      let sum : d * (n / d) + n % d ≡ n = div-add-mod n d in
      let zero_part : d * (n / d) ≡ 0 = rw none_whole (omega arith) in absurd (omega arith)
  | inr f ↦ ground (arith, f)
]

whole_segments :
    (segment q m : ℕ)
    → 0 < segment
    → segment * q ≤ gso_max_payload
    → 1 ≤ m
    → m ≤ q
    → m ≤ max_gso_segments
    → (s : ℕ) × (segment * m ≡ suc s)
      × (suc s ≡ m * segment)
      × (suc s ≤ gso_max_payload)
      × (suc s ≤ max_gso_segments * segment)
whole_segments segment q m pos fits one le cap =
    let some_bytes : 1 ≤ segment * m = grind arith in
    let le_q : segment * m ≤ segment * q = mul-le-mul_left segment le in
    let le_cap : segment * m ≤ segment * max_gso_segments = mul-le-mul_left segment cap in
    (segment * m - 1, omega arith, grind arith, omega arith, grind arith)

chunk_bytes_lem :
    (segment : ℕ)
    → 0 < segment
    → segment ≤ gso_max_payload
    → (m : ℕ) × (s : ℕ) × (chunk_bytes segment ≡ suc s)
      × (suc s ≡ m * segment)
      × (suc s ≤ gso_max_payload)
      × (suc s ≤ max_gso_segments * segment)
unfolding chunk_bytes
chunk_bytes_lem segment pos le =
    let q = gso_max_payload / segment in
    let m = clamp 1 max_gso_segments q in
    let (one, le_q, cap) = clamp_lem q (div_pos gso_max_payload segment pos le) in
    let fits : segment * q ≤ gso_max_payload = omega (arith, div-add-mod gso_max_payload segment) in
    let (s, bytes, whole, payload, few) = whole_segments segment q m pos fits one le_q cap in
    (m, s, bytes, whole, payload, few)

-- For a segment size from 1 to 65507, `send_chunks` ends, however its sends end. Each send carries at most 65507 bytes and at most 64
-- segments, and the datagrams on the wire are those of the buffer: all of them, or, when it stops at
-- an error, those before an offset that is a datagram's start.
pub send_chunks_lem :
    (buf : Bytes) (segment : ℕ) (w : Wire)
    → 0 < segment
    → segment ≤ gso_max_payload
    → let (w', r) = send_chunks buf segment w in
      (new : List (Bytes × ℕ)) × (w'.sent ≡ w.sent ++ new)
      × All (λ s. (length s.0 ≤ gso_max_payload) × (length s.0 ≤ max_gso_segments * segment)) new
      × SentUpTo segment 0 buf (on_wire new) r
unfolding send_chunks
send_chunks_lem buf segment w pos le =
    let small : ltb u16_max segment ≡ false = ground arith in
    let (m, s, bytes, whole, payload, cap) = chunk_bytes_lem segment pos le in
    let (new, log, bound, upto) =
      send_from_lem segment m s pos whole (length buf) 0 buf w (omega arith) in
    rw (small, bytes)
      (new, log, All-imp _ _ new (λ x h. (omega (arith, h), omega (arith, h))) bound, upto)
