-- ===== src/Udp/Session.antt =====
-- A session of `src/udp.rs`: `SessionShared`, `SessionEntry`, and the client's datagrams on their way
-- to the target: `forward_upstream`, `note_upstream_send_error` and `forward_upstream_coalesced`.
pub mod Forward
pub mod Same
use rfw.Net.{SocketAddr}
use rfw.Base.{
  Bool, List, Option, Result, [], drop, false, if◌then◌else◌, length, ltb, max, none, some, ℕ, ◌+◌,
  ◌-◌, ◌/◌, ◌∷◌,
}
use rfw.Stats.{ForwarderStats, mark_udp_icmp_error}
use rfw.Udp.Chunks.{Bytes, chunks}
use rfw.Udp.Errors.{Batch, IoError, UdpErr, classify_udp_err, icmp}
use rfw.Udp.Offload.{
  GsoSend, Wire, is_fallback_error, segments, send_chunks, send_one, sent_all, stopped, stuck,
}

-- What `offload::recv` gives: `received` are the bytes in the buffer, `len` of them.
pub record Recv : Type 0 where
  pub received : Bytes
  pub segment : ℕ
  pub sender : Option SocketAddr
  pub truncated : Bool

-- `upstream` is the socket's sending side, and `incoming` what its next receives give.
pub record SessionShared : Type 0 where
  pub client : SocketAddr
  pub remote : SocketAddr
  pub upstream : Wire
  pub incoming : List (Result IoError Recv)
  pub last_activity_ms : ℕ
  pub dead : Bool
  pub rx_datagrams : ℕ
  pub gro : Bool

unfoldable pub touch : ℕ → SessionShared → SessionShared
touch now_ms s = record s { last_activity_ms = max s.last_activity_ms now_ms }

-- `task` tells whether the reply task still runs.
pub record SessionEntry : Type 0 where
  pub shared : SessionShared
  pub task : Bool
  pub tx_datagrams : ℕ
  pub gso_ok : Bool

-- What the sends of one wake-up change.
pub record Forwarding : Type 0 where
  pub entry : SessionEntry
  pub batch : Batch
  pub stats : ForwarderStats

abbrev note_class : UdpErr → ℕ → ForwarderStats → ForwarderStats
note_class (icmp kind) now_ms s = mark_udp_icmp_error s now_ms kind
note_class _ now_ms s = s

unfoldable pub note_upstream_send_error : IoError → ℕ → ForwarderStats → ForwarderStats
note_upstream_send_error e now_ms s = note_class (classify_udp_err e) now_ms s

abbrev pub forwarded : ℕ → ℕ → Wire → SessionEntry → SessionEntry
forwarded n now_ms w e = record e {
  shared = touch now_ms (record e.shared { upstream = w });
  tx_datagrams = e.tx_datagrams + n;
}

abbrev on_upstream : Wire → SessionEntry → SessionEntry
on_upstream w e = record e { shared = record e.shared { upstream = w } }

-- One datagram.
unfoldable pub forward_upstream : Bytes → ℕ → Forwarding → Forwarding
forward_upstream piece now_ms f =
    let (w, failed) = send_one piece 0 f.entry.shared.upstream in
    elim failed [
      | none ↦ record f {
        entry = forwarded 1 now_ms w f.entry;
        batch = record f.batch {
          datagrams = f.batch.datagrams + 1;
          bytes = f.batch.bytes + length piece;
        };
      }
      | some e ↦ record {
        entry = on_upstream w f.entry;
        batch = record f.batch { dropped = f.batch.dropped + 1 };
        stats = note_upstream_send_error e now_ms f.stats;
      }
    ]

forward_all : List Bytes → ℕ → Forwarding → Forwarding
forward_all [] now_ms f = f
forward_all (piece ∷ pieces) now_ms f = forward_all pieces now_ms (forward_upstream piece now_ms f)

abbrev sent_datagrams : ℕ → ℕ → ℕ → Wire → Forwarding → Forwarding
sent_datagrams n bytes now_ms w f = record f {
  entry = if ltb 0 n then forwarded n now_ms w f.entry else on_upstream w f.entry;
  batch = record f.batch { datagrams = f.batch.datagrams + n; bytes = f.batch.bytes + bytes };
}

-- What follows `send_chunks`.
after_burst : Bytes → ℕ → ℕ → Forwarding → Wire × GsoSend → Forwarding
unfolding forward_all
after_burst buf segment now_ms f (w, sent_all) =
    let total = segments (length buf) segment in
    record f {
      entry = forwarded total now_ms w f.entry;
      batch = record f.batch {
        datagrams = f.batch.datagrams + total;
        bytes = f.batch.bytes + length buf;
      };
    }
after_burst buf segment now_ms f (w, stuck) = f
after_burst buf segment now_ms f (w, stopped from e) =
    let sent = from / segment in
    let f' = sent_datagrams sent from now_ms w f in
    if is_fallback_error e
    then forward_all (chunks segment (drop from buf)) now_ms
        (record f' { entry = record f'.entry { gso_ok = false } })
    else record f' {
      batch = record f'.batch {
        dropped = f'.batch.dropped + (segments (length buf) segment - sent);
      };
      stats = note_upstream_send_error e now_ms f'.stats;
    }

-- A burst of datagrams.
unfoldable pub forward_upstream_coalesced : Bytes → ℕ → ℕ → Forwarding → Forwarding
unfolding after_burst forward_all
forward_upstream_coalesced buf segment now_ms f =
    if f.entry.gso_ok
    then after_burst buf segment now_ms f (send_chunks buf segment f.entry.shared.upstream)
    else forward_all (chunks segment buf) now_ms f
