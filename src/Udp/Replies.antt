-- ===== src/Udp/Replies.antt =====
-- The way back of `src/udp.rs`: `recv_upstream`, `reply_coalesced`, `drain_upstream`,
-- `drain_upstream_gro`, and the part of `run_session` that sends what was pending.
pub mod Accounts
pub mod Counters
pub mod Drain
use rfw.Base.{
  Bool, List, Option, Result, [], drop, err, false, if◌then◌else◌, length, ltb, none, ok, some, suc,
  true, zero, ℕ, ◌+◌, ◌-◌, ◌/◌, ◌∷◌,
}
use rfw.Stats.{
  ForwarderStats, add_datagrams_dropped, add_datagrams_received, add_received, mark_connect_ok_at,
  mark_udp_icmp_error,
}
use rfw.Udp.Chunks.{Bytes, chunks}
use rfw.Udp.Errors.{
  Batch, ErrorKind, IoError, UdpErr, classify_udp_err, fatal, icmp, is_would_block, no_batch,
  transient, would_block,
}
use rfw.Udp.Offload.{
  GsoSend, Wire, is_coalesced, is_fallback_error, segments, send_chunks, send_one, sent_all,
  stopped, stuck,
}
use rfw.Udp.Session.{Recv, SessionShared, touch}

-- `data` of the source is `unsent`.
pub record Pending : Type 0 where
  pub unsent : Bytes
  pub segment : ℕ

pub data SessionDrain : Type 0 where
  idle full died : SessionDrain
  blocked : Pending → SessionDrain

-- `listener` is the listener's socket, and `listener_gso` its flag that all sessions share.
pub record Replying : Type 0 where
  pub listener : Wire
  pub listener_gso : Bool
  pub batch : Batch

abbrev sent_reply : Bytes → Wire → Replying → Replying
sent_reply piece w r = record r {
  listener = w;
  batch = record r.batch {
    datagrams = r.batch.datagrams + 1;
    bytes = r.batch.bytes + length piece;
  };
}

abbrev lost_reply : Wire → Replying → Replying
lost_reply w r = record r { listener = w; batch = record r.batch { dropped = r.batch.dropped + 1 } }

-- One `try_send_to` of a reply: does the listener block?
unfoldable pub reply : Bytes → Replying → Replying × Bool
reply piece r =
    let (w, failed) = send_one piece 0 r.listener in
    elim failed [
      | none ↦ (sent_reply piece w r, false)
      | some e ↦
          if is_would_block e then (record r { listener = w }, true) else (lost_reply w r, false)
    ]

-- `rest` are the bytes from the piece that is next on.
reply_pieces : List Bytes → Bytes → ℕ → Replying → Replying × Option Pending
reply_pieces [] rest segment r = (r, none)
reply_pieces (piece ∷ pieces) rest segment r =
    let (r', blocks) = reply piece r in
    elim blocks [
      | true ↦ (r', some (record { unsent = rest; segment = segment }))
      | false ↦ reply_pieces pieces (drop (length piece) rest) segment r'
    ]

-- What follows `send_chunks`.
after_send : Bytes → ℕ → Replying → Wire × GsoSend → Replying × Option Pending
unfolding reply_pieces
after_send buf segment r (w, sent_all) = (
  record r {
    listener = w;
    batch = record r.batch {
      datagrams = r.batch.datagrams + segments (length buf) segment;
      bytes = r.batch.bytes + length buf;
    };
  },
  none,
)
after_send buf segment r (w, stuck) = (r, none)
after_send buf segment r (w, stopped from e) =
    let rest = drop from buf in
    let r' = record r {
      listener = w;
      batch = record r.batch {
        datagrams = r.batch.datagrams + from / segment;
        bytes = r.batch.bytes + from;
      };
    } in
    if is_would_block e
    then (r', some (record { unsent = rest; segment = segment }))
    else if is_fallback_error e
    then reply_pieces (chunks segment rest) rest segment (record r' { listener_gso = false })
    else (
      record r' {
        batch = record r'.batch {
          dropped = r'.batch.dropped + segments (length buf - from) segment;
        };
      },
      none,
    )

-- A burst of replies.
unfoldable pub reply_coalesced : Bytes → ℕ → Replying → Replying × Option Pending
unfolding after_send reply_pieces
reply_coalesced buf segment r =
    if r.listener_gso
    then after_send buf segment r (send_chunks buf segment r.listener)
    else reply_pieces (chunks segment buf) buf segment r

-- The next receive, and the receives after it: a socket with none would block.
abbrev pub no_datagram : IoError
no_datagram = record { error_kind = ErrorKind.would_block; raw_os_error = some 11 }

abbrev pub recv_once : List (Result IoError Recv) → Result IoError Recv × List (Result IoError Recv)
recv_once [] = (err no_datagram, [])
recv_once (x ∷ xs) = (x, xs)

-- For readability first, and then for an error.
unfoldable pub recv_upstream :
    List (Result IoError Recv) → Result IoError Recv × List (Result IoError Recv)
recv_upstream incoming =
    let (x, rest) = recv_once incoming in
    elim x [
      | ok got ↦ (ok got, rest)
      | err e ↦ if is_would_block e then recv_once rest else (err e, rest)
    ]

-- The locals of a drain, and what it writes to.
pub record Draining : Type 0 where
  pub replying : Replying
  pub replied : Bool
  pub shared : SessionShared
  pub stats : ForwarderStats

abbrev pub stop_on : Bytes → ℕ → Replying × Bool → Replying × Option Pending
stop_on buf segment (r, blocks) =
    if blocks then (r, some (record { unsent = buf; segment = segment })) else (r, none)

-- A receive that gave datagrams. `gro` tells the two drains apart.
unfoldable pub on_received : Bool → Recv → Replying → Replying × Option Pending
on_received false got r = stop_on got.received 0 (reply got.received r)
on_received true got r =
    if got.truncated
    then (
      record r {
        batch = record r.batch {
          dropped = r.batch.dropped + segments (length got.received) got.segment;
        };
      },
      none,
    )
    else if is_coalesced (length got.received) got.segment
    then reply_coalesced got.received got.segment r
    else stop_on got.received 0 (reply got.received r)

-- A receive that failed.
on_recv_error : UdpErr → ℕ → Draining → Draining × Option SessionDrain
on_recv_error UdpErr.would_block now_ms d = (d, some idle)
on_recv_error transient now_ms d = (d, none)
on_recv_error (icmp kind) now_ms d =
    (record d { stats = mark_udp_icmp_error d.stats now_ms kind }, none)
on_recv_error fatal now_ms d = (record d { shared = record d.shared { dead = true } }, some died)

abbrev blocked_by : Option Pending → Option SessionDrain
blocked_by none = none
blocked_by (some p) = some (blocked p)

-- What a receive gave.
on_result : Bool → ℕ → Draining → Result IoError Recv → Draining × Option SessionDrain
unfolding on_recv_error
on_result gro now_ms d (ok got) =
    let (r, p) = on_received gro got d.replying in
    (record d { replying = r; replied = true }, blocked_by p)
on_result gro now_ms d (err e) = on_recv_error (classify_udp_err e) now_ms d

-- A round of the loop.
drain_round : Bool → ℕ → Draining → Draining × Option SessionDrain
unfolding on_result
drain_round gro now_ms d =
    let (x, rest) = recv_upstream d.shared.incoming in
    on_result gro now_ms (record d { shared = record d.shared { incoming = rest } }) x

pub drain_rounds : Bool → ℕ → ℕ → Draining → Draining × SessionDrain
unfolding drain_round
drain_rounds gro now_ms zero d = (d, full)
drain_rounds gro now_ms (suc n) d =
    let (d', stop) = drain_round gro now_ms d in
    elim stop [ some o ↦ (d', o) | none ↦ drain_rounds gro now_ms n d' ]

abbrev pub session_batch : ℕ
session_batch = 64

abbrev note_replied : ℕ → Draining → Draining
note_replied now_ms d =
    if d.replied
    then record d { shared = touch now_ms d.shared; stats = mark_connect_ok_at d.stats now_ms }
    else d

-- The counters of the batch are added to those of the forwarder.
abbrev flush_batch : Draining → Draining
flush_batch d =
    let b = d.replying.batch in
    let d' =
      if ltb 0 b.datagrams
      then record d {
        shared = record d.shared { rx_datagrams = d.shared.rx_datagrams + b.datagrams };
        stats = add_datagrams_received (add_received d.stats b.bytes) b.datagrams;
      }
      else d in
    if ltb 0 b.dropped then record d' { stats = add_datagrams_dropped d'.stats b.dropped } else d'

unfoldable pub drain_upstream : ℕ → Draining → Draining × SessionDrain
unfolding drain_rounds
drain_upstream now_ms d =
    let start = record d { replying = record d.replying { batch = no_batch }; replied = false } in
    let (d', o) = drain_rounds d.shared.gro now_ms session_batch start in
    (flush_batch (note_replied now_ms d'), o)
