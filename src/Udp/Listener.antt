-- ===== src/Udp/Listener.antt =====
-- `Engine::drain_listener`, `Engine::drain_listener_gro` and `Engine::apply_gro_knob` of `src/udp.rs`.
pub mod Counts
use rfw.Net.{SocketAddr}
use rfw.Base.{
  Bool, List, Option, Result, err, false, if◌then◌else◌, length, ltb, none, not, ok, some, suc,
  true, zero, ℕ, ◌&&◌, ◌+◌,
}
use rfw.Stats.{ForwarderStats, add_datagrams_dropped, add_datagrams_sent, add_sent}
use rfw.Udp.Errors.{Batch, IoError, UdpErr, classify_udp_err, fatal, no_batch, would_block}
use rfw.Udp.Offload.{segments}
use rfw.Udp.Session.{Recv}
use rfw.Udp.Replies.{recv_once}
use rfw.Udp.Engine.{Engine, ListenerOffload, on_client_buffer, on_client_datagram}

pub data ListenerDrain : Type 0 where
  idle full failed : ListenerDrain

-- `heard` is what the next receives of the listener give.
pub record Listening : Type 0 where
  pub engine : Engine
  pub heard : List (Result IoError Recv)
  pub batch : Batch

abbrev serving : Engine × Batch → Listening → Listening
serving (g, b) l = record l { engine = g; batch = b }

-- Datagrams of a client; `gro` tells the two drains apart.
from_client : Bool → SocketAddr → Recv → ℕ → ℕ → Listening → Listening
from_client false client got now_ms now l =
    serving (on_client_datagram client got.received now_ms now l.engine l.batch) l
from_client true client got now_ms now l =
    if got.truncated
    then record l {
      batch = record l.batch {
        dropped = l.batch.dropped + segments (length got.received) got.segment;
      };
    }
    else serving (on_client_buffer client got.received got.segment now_ms now l.engine l.batch) l

abbrev stop_after : UdpErr → Option ListenerDrain
stop_after UdpErr.would_block = some idle
stop_after fatal = some failed
stop_after _ = none

-- Without a source address a receive is passed over.
from_sender : Bool → Option SocketAddr → Recv → ℕ → ℕ → Listening → Listening
unfolding from_client
from_sender gro none got now_ms now l = l
from_sender gro (some client) got now_ms now l = from_client gro client got now_ms now l

on_heard : Bool → ℕ → ℕ → Listening → Result IoError Recv → Listening × Option ListenerDrain
unfolding from_sender
on_heard gro now_ms now l (err e) = (l, stop_after (classify_udp_err e))
on_heard gro now_ms now l (ok got) = (from_sender gro got.sender got now_ms now l, none)

pub listen_rounds : Bool → ℕ → ℕ → ℕ → Listening → Listening × ListenerDrain
unfolding on_heard
listen_rounds gro now_ms now zero l = (l, full)
listen_rounds gro now_ms now (suc n) l =
    let (x, rest) = recv_once l.heard in
    let (l', stop) = on_heard gro now_ms now (record l { heard = rest }) x in
    elim stop [ some o ↦ (l', o) | none ↦ listen_rounds gro now_ms now n l' ]

abbrev pub listener_batch : ℕ
listener_batch = 64

-- The counters of the batch are added to those of the forwarder.
abbrev count_sent : Batch → ForwarderStats → ForwarderStats
count_sent b s =
    let s' = if ltb 0 b.datagrams then add_datagrams_sent (add_sent s b.bytes) b.datagrams else s in
    if ltb 0 b.dropped then add_datagrams_dropped s' b.dropped else s'

unfoldable pub drain_listener : Bool → ℕ → ℕ → Listening → Listening × ListenerDrain
unfolding listen_rounds
drain_listener gro now_ms now l =
    let (l', o) = listen_rounds gro now_ms now listener_batch (record l { batch = no_batch }) in
    (record l' { engine = record l'.engine { stats = count_sent l'.batch l'.engine.stats } }, o)

-- `want` is the knob, and `set_gro` the error of setting the option, if it has one.
set_on : Option IoError → ListenerOffload → ListenerOffload
set_on none off = record off { gro_aware = true; gro_set = true; enabled = true }
set_on (some e) off = record off { gro_aware = true; unsupported = true }

unfoldable pub apply_gro_knob : Bool → Option IoError → ListenerOffload → ListenerOffload
unfolding set_on
apply_gro_knob knob set_gro off =
    if knob && not off.unsupported
    then if off.enabled
      then off
      else if off.gro_set
      then record off { enabled = true }
      else set_on set_gro off
    else record off { enabled = false }
