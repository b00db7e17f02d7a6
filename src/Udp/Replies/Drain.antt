-- ===== src/Udp/Replies/Drain.antt =====
-- What a wake-up of a session makes of what its socket received.

use rfw.Base.{
  Bool, Bool-cases, List, Option, Option-cases, Result, [], ap, append-nil, append_assoc, arith,
  err, false, if_both, if◌then◌else◌, inl, inr, length, none, ok, refl, some, subst, suc, sym, true,
  zero, ℕ, ◌++◌, ◌+◌, ◌∙◌, ◌∷◌, ◌≡◌,
}
use rfw.Udp.Chunks.{Bytes}
use rfw.Udp.Errors.{IoError, UdpErr, classify_udp_err, fatal, icmp, is_would_block, transient}
use rfw.Udp.Offload.{is_coalesced, segments}
use rfw.Udp.Offload.Account.{all_lost, and_then, nothing_yet, widen}
use rfw.Udp.Session.{Recv}
use rfw.Udp.Replies.{
  Draining, Pending, Replying, SessionDrain, blocked, blocked_by, drain_round, drain_rounds,
  on_received, on_recv_error, on_result, recv_once, recv_upstream, reply, stop_on,
}
use rfw.Udp.Replies.Accounts.{
  Replies, ResultOf, coalesced_pos, datagrams_in, pending_datagrams, reply-blocked, reply-went,
  reply_coalesced_lem, segments_lem,
}

-- The datagrams that came in.
abbrev pub arrived_in : Bool → Recv → List Bytes
arrived_in gro got = if gro then datagrams_in got.received got.segment else got.received ∷ []

abbrev pub arrived : Bool → List (Result IoError Recv) → List Bytes
arrived gro [] = []
arrived gro (ok got ∷ xs) = arrived_in gro got ++ arrived gro xs
arrived gro (err e ∷ xs) = arrived gro xs

abbrev pub left_by : SessionDrain → List Bytes
left_by (blocked p) = pending_datagrams (some p)
left_by _ = []

stop_on_lem : (buf : Bytes) (r : Replying) → ResultOf (buf ∷ []) r (stop_on buf 0 (reply buf r))
unfolding is_coalesced
stop_on_lem buf r = elim (Bool-cases (reply buf r).1) [
  | inl t ↦ rw t (reply-blocked buf r t (buf ∷ []))
  | inr f ↦ rw f (reply-went buf r f)
]

on_received_lem :
    (gro : Bool) (got : Recv) (r : Replying)
    → ResultOf (arrived_in gro got) r (on_received gro got r)
unfolding on_received
on_received_lem false got r = stop_on_lem got.received r
on_received_lem true got r =
    let size = length got.received in
    let number = segments_lem got.received got.segment in
    elim (Bool-cases got.truncated) [
      | inl t ↦
          let b' = record r.batch { dropped = r.batch.dropped + segments size got.segment } in
          rw (on_received, t)
            (all_lost (datagrams_in got.received got.segment) r.listener r.listener r.batch b' refl
              refl refl (omega (arith, number)))
      | inr f ↦ elim (Bool-cases (is_coalesced size got.segment)) [
        | inl t ↦
            rw (on_received, f, t)
              (reply_coalesced_lem got.received got.segment r (coalesced_pos size got.segment t) t)
        | inr n ↦ rw (on_received, f, n) (stop_on_lem got.received r)
      ]
    ]

-- A round, or several, from `d` to `d'`.
abbrev pub Drains : Bool → List Bytes → Draining → Draining → Type 0
Drains gro left d d' =
    (taken : List (Result IoError Recv)) × (d.shared.incoming ≡ taken ++ d'.shared.incoming)
    × Replies (arrived gro taken) left d.replying d'.replying

abbrev left_of : Option SessionDrain → List Bytes
left_of none = []
left_of (some o) = left_by o

abbrev came : Bool → Result IoError Recv → List Bytes
came gro (ok got) = arrived_in gro got
came gro (err e) = []

abbrev Takes :
    Bool → List (Result IoError Recv) → Result IoError Recv × List (Result IoError Recv) → Type 0
Takes gro incoming (x, rest) =
    (taken : List (Result IoError Recv)) × (incoming ≡ taken ++ rest)
    × (arrived gro taken ≡ came gro x)

recv_once_lem :
    (gro : Bool) (incoming : List (Result IoError Recv)) → Takes gro incoming (recv_once incoming)
recv_once_lem gro [] = ([], refl, refl)
recv_once_lem gro (ok got ∷ xs) = (ok got ∷ [], refl, append-nil (arrived_in gro got))
recv_once_lem gro (err e ∷ xs) = (err e ∷ [], refl, refl)

recv_upstream_lem :
    (gro : Bool) (incoming : List (Result IoError Recv))
    → Takes gro incoming (recv_upstream incoming)
unfolding recv_upstream
recv_upstream_lem gro [] = ([], refl, refl)
recv_upstream_lem gro (ok got ∷ xs) = recv_once_lem gro (ok got ∷ xs)
recv_upstream_lem gro (err e ∷ xs) =
    let (taken, same, all_in) = recv_once_lem gro xs in
    if_both (Takes gro (err e ∷ xs)) (is_would_block e) (recv_once xs) (err e, xs)
      (err e ∷ taken, ap (λ l. err e ∷ l) same, all_in) (recv_once_lem gro (err e ∷ xs))

arrived-append :
    (gro : Bool) (xs ys : List (Result IoError Recv))
    → arrived gro (xs ++ ys) ≡ arrived gro xs ++ arrived gro ys
arrived-append gro [] ys = refl
arrived-append gro (ok got ∷ xs) ys =
    ap (λ l. arrived_in gro got ++ l) (arrived-append gro xs ys)
    ∙ sym (append_assoc (arrived_in gro got) (arrived gro xs) (arrived gro ys))
arrived-append gro (err e ∷ xs) ys = arrived-append gro xs ys

on_recv_error_lem :
    (c : UdpErr) (now_ms : ℕ) (d : Draining)
    → let (d', o) = on_recv_error c now_ms d in
      (d'.shared.incoming ≡ d.shared.incoming) × Replies [] (left_of o) d.replying d'.replying
unfolding on_recv_error
on_recv_error_lem UdpErr.would_block now_ms d =
    (refl, nothing_yet [] d.replying.listener d.replying.batch)
on_recv_error_lem transient now_ms d = (refl, nothing_yet [] d.replying.listener d.replying.batch)
on_recv_error_lem (icmp kind) now_ms d = (refl, nothing_yet [] d.replying.listener d.replying.batch)
on_recv_error_lem fatal now_ms d = (refl, nothing_yet [] d.replying.listener d.replying.batch)

left_of-blocked_by : (p : Option Pending) → left_of (blocked_by p) ≡ pending_datagrams p
left_of-blocked_by none = refl
left_of-blocked_by (some p) = refl

on_result_lem :
    (gro : Bool) (now_ms : ℕ) (d : Draining) (x : Result IoError Recv)
    → let (d', o) = on_result gro now_ms d x in
      (d'.shared.incoming ≡ d.shared.incoming)
      × Replies (came gro x) (left_of o) d.replying d'.replying
unfolding on_result
on_result_lem gro now_ms d (ok got) =
    let p = (on_received gro got d.replying).1 in
    (refl, rw (left_of-blocked_by p) (on_received_lem gro got d.replying))
on_result_lem gro now_ms d (err e) = on_recv_error_lem (classify_udp_err e) now_ms d

drain_round_lem :
    (gro : Bool) (now_ms : ℕ) (d : Draining)
    → let (d', o) = drain_round gro now_ms d in Drains gro (left_of o) d d'
unfolding drain_round
drain_round_lem gro now_ms d =
    let (taken, same, all_in) = recv_upstream_lem gro d.shared.incoming in
    let (x, rest) = recv_upstream d.shared.incoming in
    let (kept_in, acc) =
      on_result_lem gro now_ms (record d { shared = record d.shared { incoming = rest } }) x in
    (taken, same ∙ ap (λ l. taken ++ l) (sym kept_in), rw all_in acc)

pub drain_rounds_lem :
    (gro : Bool) (now_ms n : ℕ) (d : Draining)
    → let (d', o) = drain_rounds gro now_ms n d in Drains gro (left_by o) d d'
unfolding drain_rounds
drain_rounds_lem gro now_ms zero d = ([], refl, nothing_yet [] d.replying.listener d.replying.batch)
drain_rounds_lem gro now_ms (suc n) d = elim (Option-cases (drain_round gro now_ms d).1) [
  | inr (o, stops) ↦
      rw (drain_rounds, stops)
        (subst (λ x. Drains gro (left_of x) d (drain_round gro now_ms d).0) stops
          (drain_round_lem gro now_ms d))
  | inl goes ↦
      let d' = (drain_round gro now_ms d).0 in
      let q = drain_rounds gro now_ms n d' in
      let (taken, same, acc) =
        subst (λ x. Drains gro (left_of x) d d') goes (drain_round_lem gro now_ms d) in
      let (taken', same', acc') = drain_rounds_lem gro now_ms n d' in
      rw (drain_rounds, goes)
        (
          taken ++ taken',
          same ∙ ap (λ l. taken ++ l) same' ∙ sym (append_assoc taken taken' q.0.shared.incoming),
          rw (arrived-append gro taken taken') (
              and_then (arrived gro taken ++ arrived gro taken') (arrived gro taken') (left_by q.1)
                d.replying.listener d.replying.batch d'.replying.listener d'.replying.batch
                q.0.replying.listener q.0.replying.batch
                (widen (arrived gro taken) [] d.replying.listener d.replying.batch
                  d'.replying.listener d'.replying.batch (arrived gro taken') acc)
                acc'),
        )
]
