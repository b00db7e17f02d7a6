-- ===== src/Udp/Engine.antt =====
-- `Engine` of `src/udp.rs`: the listener's table of sessions. A session's socket lives as long as its
-- entry is in the table or its task runs; `closing` are the sockets that only a task holds.
pub mod Closing
pub mod Invariant
pub mod Served
pub mod Serving
pub mod Steps
pub mod Table
use rfw.Text.{Text}
use rfw.Net.{SocketAddr, ip_beq, ip_beq_iff, ip_eq}
use rfw.Base.{
  Bool, Eq, List, Option, Result, [], arith, contains, false, if◌then◌else◌, keep_if, leb, length,
  list_eq, nat_beq, nat_eq, none, not, some, true, ℕ, ◌&&◌, ◌++◌, ◌+◌, ◌-◌, ◌==◌, ◌↔◌, ◌∷◌, ◌≡◌,
}
use rfw.Notify.Event.{Event, udp_session_limit_reached}
use rfw.Stats.{ForwarderStats, add_rejected, dec_connections, inc_connections, mark_connect_failed}
use rfw.Udp.Chunks.{Bytes}
use rfw.Udp.Errors.{Batch, IoError, os_error_is, other_kind}
use rfw.Udp.Offload.{Wire, is_coalesced, segments}
use rfw.Udp.Session.{
  Forwarding, Recv, SessionEntry, SessionShared, forward_upstream, forward_upstream_coalesced,
}

abbrev pub addr_beq : SocketAddr → SocketAddr → Bool
addr_beq a b = ip_beq a.ip b.ip && nat_beq a.port b.port

pub addr_beq_iff : (a b : SocketAddr) → (addr_beq a b ≡ true) ↔ (a ≡ b)
addr_beq_iff a b = ground (arith, ip_beq_iff a.ip b.ip)

instance abbrev pub addr_eq : Eq SocketAddr
addr_eq = record { beq = addr_beq; beq_iff = addr_beq_iff }

-- What the system makes of an attempt to open a socket to a target. A socket comes with its sending
-- side, what its receives will give, and the error of `set_gro`, if it has one.
pub data Connect : Type 0 where
  refused : IoError → Connect
  connected : Wire → List (Result IoError Recv) → Option IoError → Connect

-- The field `gso_ok` is `listener_gso` of the replies.
pub record ListenerOffload : Type 0 where
  pub gro_set : Bool
  pub enabled : Bool
  pub gro_aware : Bool
  pub unsupported : Bool

-- `udp_limit` are the free permits, and `elsewhere` those that other forwarders hold. `connects` are
-- the next attempts to open a socket; with none left they are refused. Instants in milliseconds.
pub record Engine : Type 0 where
  pub label : Text
  pub sessions : List SessionEntry
  pub closing : List SessionShared
  pub targets : List SocketAddr
  pub udp_limit : ℕ
  pub elsewhere : ℕ
  pub stats : ForwarderStats
  pub connects : List Connect
  pub off : ListenerOffload
  pub last_limit_alert : Option ℕ
  pub notified : List Event

unfoldable pub entry_of : List SessionEntry → SocketAddr → Option SessionEntry
entry_of [] client = none
entry_of (e ∷ es) client = if e.shared.client == client then some e else entry_of es client

unfoldable pub put_entry : SessionEntry → List SessionEntry → List SessionEntry
put_entry e [] = e ∷ []
put_entry e (x ∷ xs) = if x.shared.client == e.shared.client then e ∷ xs else x ∷ put_entry e xs

-- `close_entry` cancels the task, and the entry is dropped: so is the socket, if no task holds it.
unfoldable pub close_entry : SessionEntry → Engine → Engine
close_entry e g =
    if e.task
    then record g { closing = e.shared ∷ g.closing }
    else record g { udp_limit = g.udp_limit + 1; stats = dec_connections g.stats }

pub close_entries : List SessionEntry → Engine → Engine
close_entries [] g = g
close_entries (e ∷ es) g = close_entries es (close_entry e g)

-- `retain`, with `close_entry` for the entries that go.
unfoldable pub retain : (SessionEntry → Bool) → Engine → Engine
unfolding close_entries
retain keep g =
    close_entries (keep_if (λ e. not (keep e)) g.sessions)
      (record g { sessions = keep_if keep g.sessions })

-- The entry of a client is removed.
abbrev remove_client : SocketAddr → Engine → Engine
remove_client client g = record g {
  sessions = keep_if (λ e. not (e.shared.client == client)) g.sessions;
}

abbrev pub limit_alert_spacing : ℕ
limit_alert_spacing = 60_000

abbrev is_due : Option ℕ → ℕ → Bool
is_due none now = true
is_due (some t) now = leb limit_alert_spacing (now - t)

-- No permit is left.
reject_session : ℕ → ℕ → Engine → Engine
reject_session n now g =
    let stats = add_rejected g.stats n in
    if is_due g.last_limit_alert now
    then record g {
      stats = stats;
      last_limit_alert = some now;
      notified = g.notified ++ udp_session_limit_reached g.label stats.rejected_connections ∷ [];
    }
    else record g { stats = stats }

abbrev no_socket : IoError
no_socket = record { error_kind = other_kind; raw_os_error = none }

abbrev pub next_connect : List Connect → Connect × List Connect
next_connect [] = (refused no_socket, [])
next_connect (c ∷ cs) = (c, cs)

unfoldable pub mark_gro_unsupported : ListenerOffload → ListenerOffload
mark_gro_unsupported off = record off { unsupported = true }

-- `ENOPROTOOPT` of Linux.
abbrev note_gro : Option IoError → ListenerOffload → ListenerOffload
note_gro none off = off
note_gro (some e) off = if os_error_is 92 e then mark_gro_unsupported off else off

abbrev is_none : Option IoError → Bool
is_none none = true
is_none (some e) = false

with_socket : SocketAddr → SocketAddr → ℕ → Engine → Connect → Engine × Option SessionEntry
with_socket client remote now_ms g (refused e) =
    (record g { stats = mark_connect_failed g.stats }, none)
with_socket client remote now_ms g (connected w incoming gro_failed) =
    let shared : SessionShared = record {
      client = client;
      remote = remote;
      upstream = w;
      incoming = incoming;
      last_activity_ms = now_ms;
      dead = false;
      rx_datagrams = 0;
      gro = g.off.enabled && is_none gro_failed;
    } in
    (
      record g {
        udp_limit = g.udp_limit - 1;
        stats = inc_connections g.stats;
        off = if g.off.enabled then note_gro gro_failed g.off else g.off;
      },
      some (record { shared = shared; task = true; tx_datagrams = 0; gso_ok = true }),
    )

open_to : SocketAddr → ℕ → ℕ → ℕ → Engine → List SocketAddr → Engine × Option SessionEntry
unfolding with_socket reject_session
open_to client now_ms now n g [] = (record g { stats = mark_connect_failed g.stats }, none)
open_to client now_ms now n g (remote ∷ _) =
    if g.udp_limit == 0
    then (reject_session n now g, none)
    else let (c, later) = next_connect g.connects in
      with_socket client remote now_ms (record g { connects = later }) c

-- `now` is the instant and `now_ms` the clock of the statistics. A caller drops the `n` datagrams if
-- there is no session.
unfoldable pub open_session : SocketAddr → ℕ → ℕ → ℕ → Engine → Engine × Option SessionEntry
unfolding open_to
open_session client now_ms now n g = open_to client now_ms now n g g.targets

-- The datagrams of a client go through its entry.
forward_in : (Forwarding → Forwarding) → SessionEntry → Engine → Batch → Engine × Batch
forward_in forward e g b =
    let f = forward (record { entry = e; batch = b; stats = g.stats }) in
    (record g { sessions = put_entry f.entry g.sessions; stats = f.stats }, f.batch)

through_new : (Forwarding → Forwarding) → ℕ → Batch → Engine × Option SessionEntry → Engine × Batch
unfolding forward_in
through_new forward n b (g, none) = (g, record b { dropped = b.dropped + n })
through_new forward n b (g, some e) = forward_in forward e g b

-- `n` datagrams of a client, which `forward` sends.
serve : (Forwarding → Forwarding) → SocketAddr → ℕ → ℕ → ℕ → Engine → Batch → Engine × Batch
unfolding through_new forward_in
serve forward client n now_ms now g b = elim (entry_of g.sessions client) [
  | none ↦ through_new forward n b (open_session client now_ms now n g)
  | some e ↦
      if e.shared.dead
      then through_new forward n b
          (open_session client now_ms now n (close_entry e (remove_client client g)))
      else forward_in forward e g b
]

unfoldable pub on_client_datagram : SocketAddr → Bytes → ℕ → ℕ → Engine → Batch → Engine × Batch
unfolding serve
on_client_datagram client piece now_ms now g b =
    serve (forward_upstream piece now_ms) client 1 now_ms now g b

unfoldable pub on_client_buffer : SocketAddr → Bytes → ℕ → ℕ → ℕ → Engine → Batch → Engine × Batch
unfolding serve
on_client_buffer client buf segment now_ms now g b =
    if is_coalesced (length buf) segment
    then serve (forward_upstream_coalesced buf segment now_ms) client
        (segments (length buf) segment) now_ms now g b
    else on_client_datagram client buf now_ms now g b

-- Dead sessions and idle ones.
unfoldable pub is_live : ℕ → ℕ → SessionEntry → Bool
is_live timeout_ms now_ms e =
    not e.shared.dead && not (leb timeout_ms (now_ms - e.shared.last_activity_ms))

unfoldable pub sweep : ℕ → ℕ → Engine → Engine
sweep timeout_ms now_ms g = retain (is_live timeout_ms now_ms) g

unfoldable pub on_targets_changed : Engine → Engine
on_targets_changed g = retain (λ e. contains g.targets e.shared.remote) g

unfoldable pub close_all : Engine → Engine
unfolding close_entries
close_all g = close_entries g.sessions (record g { sessions = [] })
