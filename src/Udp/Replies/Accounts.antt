-- ===== src/Udp/Replies/Accounts.antt =====
-- What becomes of the target's replies.

use rfw.Base.{
  Bool-cases, List, Option, Option-cases, [], ap, arith, drop, false, if_both, if◌then◌else◌, inl,
  inr, length, length-drop, none, refl, some, suc, sym, take, true, zero, ℕ, ◌++◌, ◌+◌, ◌-◌, ◌<◌,
  ◌∙◌, ◌∷◌, ◌≡◌,
}
use rfw.Udp.Chunks.{Bytes, chunks, chunks-cons, chunks_short, length-chunks}
use rfw.Udp.Errors.{is_would_block}
use rfw.Udp.Offload.{
  GsoSend, Wire, is_coalesced, is_fallback_error, segments, send_chunks, send_one, sent_all,
  stopped, stuck,
}
use rfw.Udp.Offload.Sends.{SentUpTo, on_wire, send_one-failed, send_one-sent}
use rfw.Udp.Offload.Account.{
  Accounted, all_lost, and_then, counting, counting_lem, nothing_sent, nothing_yet, one_sent, widen,
}
use rfw.Udp.Replies.{Pending, Replying, after_send, reply, reply_coalesced, reply_pieces}
use rfw.Udp.Offload.Bounds.{send_chunks-SentUpTo}
use rfw.Udp.Session.Forward.{burst_full}

-- From `r` to `r'`, the replies of `arrived` before `left` were sent or lost.
abbrev pub Replies : List Bytes → List Bytes → Replying → Replying → Type 0
Replies arrived left r r' = Accounted arrived left r.listener r.batch r'.listener r'.batch

-- The datagrams in a buffer.
abbrev pub datagrams_in : Bytes → ℕ → List Bytes
datagrams_in buf segment =
    if is_coalesced (length buf) segment then chunks segment buf else buf ∷ []

abbrev pub pending_datagrams : Option Pending → List Bytes
pending_datagrams none = []
pending_datagrams (some p) = datagrams_in p.unsent p.segment

datagrams_in_lem :
    (buf : Bytes) (segment : ℕ)
    → 0 < segment
    → 0 < length buf
    → datagrams_in buf segment ≡ chunks segment buf
unfolding is_coalesced
datagrams_in_lem [] segment pos nonempty = absurd (omega arith)
datagrams_in_lem (x ∷ xs) segment pos nonempty =
    elim (Bool-cases (is_coalesced (length (x ∷ xs)) segment)) [
      | inl t ↦ rw t refl
      | inr f ↦ rw f (sym (chunks_short segment x xs (ground (arith, f, pos))))
    ]

-- `segments` counts them.
pub coalesced_pos : (len segment : ℕ) → is_coalesced len segment ≡ true → 0 < segment
unfolding is_coalesced
coalesced_pos len segment h = ground arith

pub segments_lem :
    (buf : Bytes) (segment : ℕ) → segments (length buf) segment ≡ length (datagrams_in buf segment)
unfolding segments
segments_lem buf segment = elim (Bool-cases (is_coalesced (length buf) segment)) [
  | inl t ↦
      rw (segments, t) (sym (length-chunks segment buf (coalesced_pos (length buf) segment t)))
  | inr f ↦ rw (segments, f) refl
]

drop-take : (n : ℕ) (xs : Bytes) → drop (length (take n xs)) xs ≡ drop n xs
drop-take zero xs = refl
drop-take (suc n) [] = refl
drop-take (suc n) (x ∷ xs) = drop-take n xs

abbrev first_piece : List Bytes → Bytes
first_piece [] = []
first_piece (p ∷ ps) = p

-- What is behind the first piece has the other pieces.
chunks-uncons :
    (segment : ℕ) (rest piece : Bytes) (pieces : List Bytes)
    → 0 < segment
    → chunks segment rest ≡ piece ∷ pieces
    → (chunks segment (drop (length piece) rest) ≡ pieces) × (0 < length rest)
unfolding chunks
chunks-uncons segment [] piece pieces pos e = absurd (omega (arith, ap length e))
chunks-uncons segment (x ∷ xs) piece pieces pos e =
    let e' = sym (chunks-cons segment x xs pos) ∙ e in
    let behind : drop (length piece) (x ∷ xs) ≡ drop segment (x ∷ xs) =
      ap (λ p. drop (length p) (x ∷ xs)) (sym (ap first_piece e')) ∙ drop-take segment (x ∷ xs) in
    (rw behind (ap (drop 1) e'), omega arith)

module _ (piece : Bytes) (r : Replying) where
  pub reply-blocked :
      (reply piece r).1 ≡ true
      → (arrived : List Bytes) → Replies arrived arrived r (reply piece r).0
  unfolding reply
  reply-blocked h arrived = elim (Option-cases (send_one piece 0 r.listener).1) [
    | inl went ↦ absurd (ground (arith, went, h))
    | inr (e, failed) ↦ elim (Bool-cases (is_would_block e)) [
      | inl t ↦
          rw (reply, failed, t)
            (nothing_sent arrived r.listener (send_one piece 0 r.listener).0 r.batch
              (send_one-failed piece 0 r.listener e failed))
      | inr f ↦ absurd (ground (arith, failed, f, h))
    ]
  ]

  pub reply-went : (reply piece r).1 ≡ false → Replies (piece ∷ []) [] r (reply piece r).0
  unfolding reply
  reply-went h = elim (Option-cases (send_one piece 0 r.listener).1) [
    | inl went ↦
        rw (reply, went)
          (one_sent piece r.listener (send_one piece 0 r.listener).0 r.batch
            (send_one-sent piece 0 r.listener went))
    | inr (e, failed) ↦ elim (Bool-cases (is_would_block e)) [
      | inl t ↦ absurd (ground (arith, failed, t, h))
      | inr f ↦
          rw (reply, failed, f)
            (all_lost (piece ∷ []) r.listener (send_one piece 0 r.listener).0 r.batch
              (record r.batch { dropped = r.batch.dropped + 1 })
              (send_one-failed piece 0 r.listener e failed) refl refl refl)
    ]
  ]

-- A result and what it leaves.
abbrev pub ResultOf : List Bytes → Replying → Replying × Option Pending → Type 0
ResultOf arrived r (r', p) = Replies arrived (pending_datagrams p) r r'

reply_pieces_lem :
    (pieces : List Bytes) (rest : Bytes) (segment : ℕ) (r : Replying)
    → 0 < segment
    → chunks segment rest ≡ pieces
    → ResultOf pieces r (reply_pieces pieces rest segment r)
unfolding reply_pieces
reply_pieces_lem [] rest segment r pos same = nothing_yet [] r.listener r.batch
reply_pieces_lem (piece ∷ pieces) rest segment r pos same =
    let (later, nonempty) = chunks-uncons segment rest piece pieces pos same in
    let r' = (reply piece r).0 in
    elim (Bool-cases (reply piece r).1) [
      | inl t ↦
          rw (reply_pieces, t, datagrams_in_lem rest segment pos nonempty, same)
            (reply-blocked piece r t (piece ∷ pieces))
      | inr f ↦
          let q = reply_pieces pieces (drop (length piece) rest) segment r' in
          rw (reply_pieces, f)
            (and_then (piece ∷ pieces) pieces (pending_datagrams q.1) r.listener r.batch r'.listener
              r'.batch q.0.listener q.0.batch
              (widen (piece ∷ []) [] r.listener r.batch r'.listener r'.batch pieces
                (reply-went piece r f))
              (reply_pieces_lem pieces (drop (length piece) rest) segment r' pos later))
    ]

module _ (buf : Bytes) (segment : ℕ) (r : Replying) (pos : 0 < segment) where
  after_send_lem :
      (w' : Wire) (o : GsoSend) (new : List (Bytes × ℕ))
      → w'.sent ≡ r.listener.sent ++ new
      → is_coalesced (length buf) segment ≡ true
      → SentUpTo segment 0 buf (on_wire new) o
      → ResultOf (chunks segment buf) r (after_send buf segment r (w', o))
  unfolding after_send chunks
  after_send_lem w' sent_all new log burst upto =
      counting_lem segment buf r.listener r.batch pos w' sent_all new log burst upto
  after_send_lem w' stuck new log burst upto = elim upto [ ]
  after_send_lem w' (stopped from e) new log burst (k, at, lt, same) =
      let left = chunks segment (drop from buf) in
      let nonempty : 0 < length (drop from buf) = omega (arith, length-drop from buf, at, lt) in
      let part =
        counting_lem segment buf r.listener r.batch pos w' (stopped from e) new log burst
          (k, at, lt, same) in
      elim (Bool-cases (is_would_block e)) [
        | inl t ↦ rw (after_send, t, datagrams_in_lem (drop from buf) segment pos nonempty) part
        | inr n ↦ elim (Bool-cases (is_fallback_error e)) [
          | inl t ↦
              let r' = record r {
                listener = w';
                listener_gso = false;
                batch = counting segment buf r.batch (stopped from e);
              } in
              let q = reply_pieces left (drop from buf) segment r' in
              rw (after_send, n, t)
                (and_then (chunks segment buf) left (pending_datagrams q.1) r.listener r.batch w'
                  r'.batch q.0.listener q.0.batch part
                  (reply_pieces_lem left (drop from buf) segment r' pos refl))
          | inr m ↦
              let b' = record (counting segment buf r.batch (stopped from e)) {
                dropped = r.batch.dropped + segments (length buf - from) segment;
              } in
              let number : segments (length buf - from) segment ≡ length left =
                ap (λ n. segments n segment) (sym (length-drop from buf))
                ∙ segments_lem (drop from buf) segment
                ∙ ap length (datagrams_in_lem (drop from buf) segment pos nonempty) in
              rw (after_send, n, m)
                (and_then (chunks segment buf) left [] r.listener r.batch w'
                  (counting segment buf r.batch (stopped from e)) w' b' part
                  (all_lost left w' w' (counting segment buf r.batch (stopped from e)) b' refl refl
                    refl (omega (arith, number))))
        ]
      ]

  -- A burst of replies, with a segment size that splits it: each of its datagrams is sent whole and in
  -- its order, or counted as dropped, or still in what is pending; the counters of the batch are those
  -- of what was sent and dropped.
  pub reply_coalesced_lem :
      is_coalesced (length buf) segment ≡ true
      → ResultOf (chunks segment buf) r (reply_coalesced buf segment r)
  unfolding reply_coalesced reply_pieces
  reply_coalesced_lem burst =
      let o = send_chunks buf segment r.listener in
      let (new, log, upto) =
        send_chunks-SentUpTo buf segment r.listener pos (burst_full (length buf) segment burst) in
      if_both (ResultOf (chunks segment buf) r) r.listener_gso (after_send buf segment r o)
        (reply_pieces (chunks segment buf) buf segment r)
        (after_send_lem o.0 o.1 new log burst upto)
        (reply_pieces_lem (chunks segment buf) buf segment r pos refl)
