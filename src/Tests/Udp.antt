-- ===== src/Tests/Udp.antt =====
-- Runs of the code of `src/udp.rs` on small inputs.

use rfw.Net.{SocketAddr, ip_eq, v4}
use rfw.Base.{
  All, List, Option, Result, [], arith, contains, err, false, length, list_eq, nat_eq, none, ok,
  refl, some, true, ℕ, ◌%◌, ◌*◌, ◌++◌, ◌+◌, ◌-◌, ◌<◌, ◌↔◌, ◌∷◌, ◌≡◌, ◌≤◌,
}
use rfw.Text.{codes}
use rfw.Config.Forwarder.{protocol_eq, udp}
use rfw.Stats.{ForwarderStats, u64_max, with_protocol}
use rfw.Udp.Chunks.{Bytes, chunks}
use rfw.Udp.Errors.{ErrorKind, IoError, no_batch, other_kind}
use rfw.Udp.Offload.{
  GsoSend, Wire, chunk_bytes, gso_max_payload, is_coalesced, is_fallback_error, max_gso_segments,
  segments, send_chunks, send_one,
}
use rfw.Udp.Offload.Sends.{SentUpTo, on_wire}
use rfw.Udp.Offload.Account.{Kept}
use rfw.Udp.Offload.Bounds.{send_chunks_lem}
use rfw.Udp.Session.{Forwarding, Recv, SessionEntry, SessionShared, forward_upstream_coalesced}
use rfw.Udp.Session.Forward.{Forwards, forward_upstream_coalesced_lem}
use rfw.Udp.Replies.{
  Draining, Pending, Replying, SessionDrain, drain_upstream, reply, reply_coalesced,
}
use rfw.Udp.Replies.Accounts.{Replies, pending_datagrams, reply_coalesced_lem}
use rfw.Udp.Replies.Drain.{arrived, left_by}
use rfw.Udp.Replies.Counters.{drain_upstream_lem}
use rfw.Udp.Engine.{
  Engine, ListenerOffload, addr_eq, connected, on_client_buffer, on_targets_changed, sweep,
}
use rfw.Udp.Engine.Invariant.{IsEngine}
use rfw.Udp.Engine.Closing.{Holds, on_targets_changed_lem, sweep_lem}
use rfw.Udp.Engine.Steps.{Runs-IsEngine, a_buffer, a_sweep, no_step, then_step}
use rfw.Udp.Engine.Served.{told}
use rfw.Udp.Listener.{ListenerDrain, Listening, listen_rounds}
use rfw.Udp.Listener.Counts.{count_heard, listen_rounds_lem}

abbrev full_buffer : IoError
full_buffer = record { error_kind = ErrorKind.would_block; raw_os_error = some 11 }

abbrev no_offload : IoError
no_offload = record { error_kind = other_kind; raw_os_error = some 5 }

-- Seven bytes are three datagrams.
abbrev burst : Bytes
burst = 1 ∷ 2 ∷ 3 ∷ 4 ∷ 5 ∷ 6 ∷ 7 ∷ []

abbrev silent : Wire
silent = record { outcomes = []; sent = [] }

-- The first send is refused, and the third is blocked.
abbrev troubled : Wire
troubled = record { outcomes = some no_offload ∷ none ∷ some full_buffer ∷ []; sent = [] }

segments_run : segments (length burst) 3 ≡ 3
unfolding segments is_coalesced
segments_run = refl

abbrev sent_burst : Wire × GsoSend
sent_burst = send_chunks burst 3 silent

send_chunks_lem_example :
    (new : List (Bytes × ℕ)) × (sent_burst.0.sent ≡ [] ++ new)
    × All (λ s. (length s.0 ≤ gso_max_payload) × (length s.0 ≤ max_gso_segments * 3)) new
    × SentUpTo 3 0 burst (on_wire new) sent_burst.1
send_chunks_lem_example = send_chunks_lem burst 3 silent (omega arith) (omega arith)

abbrev replying : Replying
replying = record { listener = troubled; listener_gso = true; batch = no_batch }

abbrev replied_burst : Replying × Option Pending
replied_burst = reply_coalesced burst 3 replying

reply_coalesced_run :
    (replied_burst.1 ≡ some (record { unsent = 4 ∷ 5 ∷ 6 ∷ 7 ∷ []; segment = 3 }))
    × (replied_burst.0.batch ≡ record { bytes = 3; datagrams = 1; dropped = 0 })
unfolding reply_coalesced send_chunks send_one chunks chunk_bytes is_fallback_error reply
reply_coalesced_run = (refl, refl)

reply_coalesced_lem_example :
    Replies (chunks 3 burst) (pending_datagrams replied_burst.1) replying replied_burst.0
unfolding is_coalesced
reply_coalesced_lem_example = reply_coalesced_lem burst 3 replying (omega arith) refl

abbrev client_a : SocketAddr
client_a = record { ip = v4 1; port = 1000 }

abbrev target : SocketAddr
target = record { ip = v4 9; port = 53 }

abbrev got_burst : Recv
got_burst = record { received = burst; segment = 3; sender = some client_a; truncated = false }

abbrev session : SessionShared
session = record {
  client = client_a;
  remote = target;
  upstream = troubled;
  incoming = ok got_burst ∷ err full_buffer ∷ err full_buffer ∷ [];
  last_activity_ms = 5;
  dead = false;
  rx_datagrams = 0;
  gro = true;
}

abbrev entry : SessionEntry
entry = record { shared = session; task = true; tx_datagrams = 0; gso_ok = true }

abbrev counters : ForwarderStats
counters = with_protocol (codes "dns") udp

abbrev forwarding : Forwarding
forwarding = record { entry = entry; batch = no_batch; stats = counters }

forward_upstream_coalesced_lem_example :
    Forwards (chunks 3 burst) forwarding (forward_upstream_coalesced burst 3 100 forwarding)
unfolding is_coalesced
forward_upstream_coalesced_lem_example =
    forward_upstream_coalesced_lem burst 3 100 forwarding (omega arith) refl

abbrev draining : Draining
draining = record { replying = replying; replied = false; shared = session; stats = counters }

abbrev after_drain : Draining × SessionDrain
after_drain = drain_upstream 100 draining

drain_upstream_lem_example :
    (taken : List (Result IoError Recv)) × (new : List (Bytes × ℕ)) × (handled : List Bytes)
    × (session.incoming ≡ taken ++ after_drain.0.shared.incoming)
    × (after_drain.0.replying.listener.sent ≡ [] ++ new)
    × (arrived true taken ≡ handled ++ left_by after_drain.1)
    × Kept (on_wire new) handled
    × (after_drain.0.stats.datagrams_received
        ≡ (counters.datagrams_received + length (on_wire new)) % (u64_max + 1))
    × (after_drain.0.stats.datagrams_dropped
        ≡ (counters.datagrams_dropped + (length handled - length (on_wire new))) % (u64_max + 1))
unfolding with_protocol
drain_upstream_lem_example = drain_upstream_lem 100 draining (omega arith) (omega arith)

-- Two permits, and sockets that open.
abbrev quiet : Engine
quiet = record {
  label = codes "dns";
  sessions = [];
  closing = [];
  targets = target ∷ [];
  udp_limit = 2;
  elsewhere = 0;
  stats = counters;
  connects = connected troubled [] none ∷ [];
  off = record { gro_set = true; enabled = true; gro_aware = true; unsupported = false };
  last_limit_alert = none;
  notified = [];
}

quiet-IsEngine : IsEngine 2 quiet
unfolding with_protocol
quiet-IsEngine = record { permits = refl; active = refl; one_each = tt }

abbrev busy : Engine
busy = (on_client_buffer client_a burst 3 100 100 quiet no_batch).0

abbrev later : Engine
later = sweep 1000 5000 busy

Runs-IsEngine_example : IsEngine 2 later
Runs-IsEngine_example =
    Runs-IsEngine 2 (omega arith) quiet-IsEngine (
      then_step (then_step no_step (a_buffer client_a burst 3 100 100 no_batch))
        (a_sweep 1000 5000))

abbrev table : Engine
table = record quiet { sessions = entry ∷ [] }

sweep_lem_example :
    Holds entry (sweep 10 20 table).sessions
    ↔ (Holds entry (entry ∷ []) × (false ≡ false) × (20 - 5 < 10))
sweep_lem_example = sweep_lem 10 20 table entry

on_targets_changed_lem_example :
    Holds entry (on_targets_changed table).sessions
    ↔ (Holds entry (entry ∷ []) × (contains (target ∷ []) target ≡ true))
on_targets_changed_lem_example = on_targets_changed_lem table entry

abbrev listening : Listening
listening = record { engine = quiet; heard = ok got_burst ∷ err full_buffer ∷ []; batch = no_batch }

abbrev listened : Listening × ListenerDrain
listened = listen_rounds true 100 100 64 listening

listen_rounds_lem_example :
    (taken : List (Result IoError Recv)) × (listening.heard ≡ taken ++ listened.0.heard)
    × (told listened.0.batch ≡ 0 + count_heard true taken)
listen_rounds_lem_example = listen_rounds_lem true 100 100 64 listening

abbrev fresh : ListenerOffload
fresh = record { gro_set = false; enabled = false; gro_aware = false; unsupported = false }
