-- ===== src/Udp/Replies/Counters.antt =====
-- The counters of the forwarder after a wake-up of a session.

use rfw.Base.{
  Bool, List, Option-cases, Result, ap, arith, err, false, inl, inr, length, ok, refl, suc, sym,
  zero, ℕ, ◌%◌, ◌++◌, ◌+◌, ◌-◌, ◌∙◌, ◌≡◌, ◌≤◌,
}
use rfw.Stats.{
  ForwarderStats, add_datagrams_dropped, add_datagrams_received, add_received, mark_connect_ok_at,
  mark_udp_icmp_error, u64_max,
}
use rfw.Udp.Chunks.{Bytes}
use rfw.Udp.Errors.{Batch, IoError, UdpErr, classify_udp_err, fatal, icmp, no_batch, transient}
use rfw.Udp.Offload.Sends.{on_wire}
use rfw.Udp.Offload.Account.{Kept}
use rfw.Udp.Session.{Recv, touch}
use rfw.Udp.Replies.{
  Draining, drain_round, drain_rounds, drain_upstream, flush_batch, note_replied, on_recv_error,
  on_result, recv_upstream, session_batch,
}
use rfw.Udp.Replies.Drain.{arrived, drain_rounds_lem, left_by}

-- The counters of replies, the connections and the client stay.
abbrev Same : Draining → Draining → Type 0
Same d d' =
    (d'.stats.datagrams_received ≡ d.stats.datagrams_received)
    × (d'.stats.datagrams_dropped ≡ d.stats.datagrams_dropped)
    × (d'.stats.active_connections ≡ d.stats.active_connections)
    × (d'.shared.client ≡ d.shared.client)

on_recv_error-Same : (c : UdpErr) (now_ms : ℕ) (d : Draining) → Same d (on_recv_error c now_ms d).0
unfolding on_recv_error mark_udp_icmp_error
on_recv_error-Same UdpErr.would_block now_ms d = (refl, refl, refl, refl)
on_recv_error-Same transient now_ms d = (refl, refl, refl, refl)
on_recv_error-Same (icmp kind) now_ms d = (refl, refl, refl, refl)
on_recv_error-Same fatal now_ms d = (refl, refl, refl, refl)

on_result-Same :
    (gro : Bool) (now_ms : ℕ) (d : Draining) (x : Result IoError Recv)
    → Same d (on_result gro now_ms d x).0
unfolding on_result
on_result-Same gro now_ms d (ok got) = (refl, refl, refl, refl)
on_result-Same gro now_ms d (err e) = on_recv_error-Same (classify_udp_err e) now_ms d

drain_rounds-Same :
    (gro : Bool) (now_ms n : ℕ) (d : Draining) → Same d (drain_rounds gro now_ms n d).0
unfolding drain_rounds drain_round
drain_rounds-Same gro now_ms zero d = (refl, refl, refl, refl)
drain_rounds-Same gro now_ms (suc n) d =
    let (x, rest) = recv_upstream d.shared.incoming in
    let (a, b, c, e) =
      on_result-Same gro now_ms (record d { shared = record d.shared { incoming = rest } }) x in
    elim (Option-cases (drain_round gro now_ms d).1) [
      | inr (o, stops) ↦ rw (drain_rounds, stops) (a, b, c, e)
      | inl goes ↦
          let (a', b', c', e') = drain_rounds-Same gro now_ms n (drain_round gro now_ms d).0 in
          rw (drain_rounds, goes) (a' ∙ a, b' ∙ b, c' ∙ c, e' ∙ e)
    ]

abbrev pub IsCounter : ℕ → Type 0
IsCounter n = n ≤ u64_max

-- The counters of the forwarder are those before and those of the batch.
abbrev Counted : ForwarderStats → Batch → ForwarderStats → Type 0
Counted s b s' =
    (s'.datagrams_received ≡ (s.datagrams_received + b.datagrams) % (u64_max + 1))
    × (s'.datagrams_dropped ≡ (s.datagrams_dropped + b.dropped) % (u64_max + 1))

flush_batch_lem :
    (now_ms : ℕ) (d : Draining)
    → IsCounter d.stats.datagrams_received
    → IsCounter d.stats.datagrams_dropped
    → let d' = flush_batch (note_replied now_ms d) in
      (d'.shared.incoming ≡ d.shared.incoming)
      × (d'.replying ≡ d.replying)
      × Counted d.stats d.replying.batch d'.stats
unfolding touch mark_connect_ok_at add_datagrams_received add_received add_datagrams_dropped
flush_batch_lem now_ms d h h' = ground arith

-- A wake-up of a session takes a first part of what its socket can receive. Each datagram in it goes to
-- the client whole and in its order, or is lost, or is left pending, and the counters of the forwarder,
-- if they were 64-bit numbers, grow by those that were sent and those that were lost.
pub drain_upstream_lem :
    (now_ms : ℕ) (d : Draining)
    → IsCounter d.stats.datagrams_received
    → IsCounter d.stats.datagrams_dropped
    → let (d', o) = drain_upstream now_ms d in
      (taken : List (Result IoError Recv)) × (new : List (Bytes × ℕ)) × (handled : List Bytes)
      × (d.shared.incoming ≡ taken ++ d'.shared.incoming)
      × (d'.replying.listener.sent ≡ d.replying.listener.sent ++ new)
      × (arrived d.shared.gro taken ≡ handled ++ left_by o)
      × Kept (on_wire new) handled
      × (d'.stats.datagrams_received
          ≡ (d.stats.datagrams_received + length (on_wire new)) % (u64_max + 1))
      × (d'.stats.datagrams_dropped
          ≡ (d.stats.datagrams_dropped + (length handled - length (on_wire new))) % (u64_max + 1))
unfolding drain_upstream
drain_upstream_lem now_ms d h h' =
    let start = record d { replying = record d.replying { batch = no_batch }; replied = false } in
    let q = drain_rounds d.shared.gro now_ms session_batch start in
    let (taken, same, acc) = drain_rounds_lem d.shared.gro now_ms session_batch start in
    let (a, b, c, e) = drain_rounds-Same d.shared.gro now_ms session_batch start in
    let (same', replying, counted) =
      flush_batch_lem now_ms q.0 (omega (arith, h, a)) (omega (arith, h', b)) in
    (
      taken,
      acc.new,
      acc.handled,
      same ∙ ap (λ l. taken ++ l) (sym same'),
      ap (λ r. r.listener.sent) replying ∙ acc.log,
      acc.split,
      acc.whole,
      rw (counted.0, a)
          (ap (λ n. (d.stats.datagrams_received + n) % (u64_max + 1)) (omega (arith, acc.counted))),
      rw (counted.1, b)
          (ap (λ n. (d.stats.datagrams_dropped + n) % (u64_max + 1))
            (omega (arith, acc.counted, acc.all_counted))),
    )

flush_batch-client :
    (now_ms : ℕ) (d : Draining)
    → let d' = flush_batch (note_replied now_ms d) in
      (d'.stats.active_connections ≡ d.stats.active_connections)
      × (d'.shared.client ≡ d.shared.client)
unfolding touch mark_connect_ok_at add_datagrams_received add_received add_datagrams_dropped
flush_batch-client now_ms d = (ground arith, ground arith)

-- A wake-up leaves the client and the connections.
pub drain_upstream-client :
    (now_ms : ℕ) (d : Draining)
    → let d' = (drain_upstream now_ms d).0 in
      (d'.stats.active_connections ≡ d.stats.active_connections)
      × (d'.shared.client ≡ d.shared.client)
unfolding drain_upstream touch mark_connect_ok_at add_datagrams_received add_received
    add_datagrams_dropped
drain_upstream-client now_ms d =
    let start = record d { replying = record d.replying { batch = no_batch }; replied = false } in
    let q = drain_rounds d.shared.gro now_ms session_batch start in
    let (a, b, c, e) = drain_rounds-Same d.shared.gro now_ms session_batch start in
    let (active, client) = flush_batch-client now_ms q.0 in (active ∙ c, client ∙ e)
