-- ===== src/Udp/Session/Same.antt =====
-- A client's datagrams leave it the client of its session.

use rfw.Base.{
  List, Option-cases, [], drop, false, if_both, inl, inr, length, ltb, refl, ℕ, ◌+◌, ◌-◌, ◌/◌, ◌∙◌,
  ◌∷◌, ◌≡◌,
}
use rfw.Stats.{ForwarderStats, mark_udp_icmp_error}
use rfw.Udp.Chunks.{Bytes, chunks}
use rfw.Udp.Errors.{UdpErr, classify_udp_err, fatal, icmp, transient}
use rfw.Udp.Offload.{
  GsoSend, Wire, is_fallback_error, segments, send_chunks, send_one, sent_all, stopped, stuck,
}
use rfw.Udp.Session.{
  Forwarding, after_burst, forward_all, forward_upstream, forward_upstream_coalesced, forwarded,
  note_class, note_upstream_send_error, on_upstream, sent_datagrams, touch,
}

-- The client stays, and no connection comes or goes.
abbrev SameSession : Forwarding → Forwarding → Type 0
SameSession f f' =
    (f'.entry.shared.client ≡ f.entry.shared.client)
    × (f'.stats.active_connections ≡ f.stats.active_connections)

abbrev pub Keeps : (Forwarding → Forwarding) → Type 0
Keeps forward = (f : Forwarding) → SameSession f (forward f)

note_class-active :
    (c : UdpErr) (now_ms : ℕ) (s : ForwarderStats)
    → (note_class c now_ms s).active_connections ≡ s.active_connections
unfolding mark_udp_icmp_error
note_class-active UdpErr.would_block now_ms s = refl
note_class-active transient now_ms s = refl
note_class-active (icmp kind) now_ms s = refl
note_class-active fatal now_ms s = refl

pub forward_upstream-Keeps : (piece : Bytes) (now_ms : ℕ) → Keeps (forward_upstream piece now_ms)
unfolding forward_upstream touch note_upstream_send_error
forward_upstream-Keeps piece now_ms f =
    elim (Option-cases (send_one piece 0 f.entry.shared.upstream).1) [
      | inl went ↦ rw (forward_upstream, went) (refl, refl)
      | inr (e, failed) ↦
          rw (forward_upstream, failed)
            (refl, note_class-active (classify_udp_err e) now_ms f.stats)
    ]

forward_all-Keeps : (pieces : List Bytes) (now_ms : ℕ) → Keeps (forward_all pieces now_ms)
unfolding forward_all
forward_all-Keeps [] now_ms f = (refl, refl)
forward_all-Keeps (piece ∷ pieces) now_ms f =
    let (a, b) = forward_upstream-Keeps piece now_ms f in
    let (a', b') = forward_all-Keeps pieces now_ms (forward_upstream piece now_ms f) in
    (a' ∙ a, b' ∙ b)

sent_datagrams-Keeps : (n bytes now_ms : ℕ) (w : Wire) → Keeps (sent_datagrams n bytes now_ms w)
unfolding touch
sent_datagrams-Keeps n bytes now_ms w f = (
  if_both (λ e. e.shared.client ≡ f.entry.shared.client) (ltb 0 n) (forwarded n now_ms w f.entry)
      (on_upstream w f.entry) refl refl,
  refl,
)

after_burst-Keeps :
    (buf : Bytes) (segment now_ms : ℕ) (r : Wire × GsoSend)
    → Keeps (λ f. after_burst buf segment now_ms f r)
unfolding after_burst touch note_upstream_send_error
after_burst-Keeps buf segment now_ms (w, sent_all) f = (refl, refl)
after_burst-Keeps buf segment now_ms (w, stuck) f = (refl, refl)
after_burst-Keeps buf segment now_ms (w, stopped from e) f =
    let sent = from / segment in
    let f' = sent_datagrams sent from now_ms w f in
    let (a, b) = sent_datagrams-Keeps sent from now_ms w f in
    let retry : Forwarding = record f' { entry = record f'.entry { gso_ok = false } } in
    let pieces = chunks segment (drop from buf) in
    let (a', b') = forward_all-Keeps pieces now_ms retry in
    if_both (SameSession f) (is_fallback_error e) (forward_all pieces now_ms retry)
      (record f' {
        batch = record f'.batch {
          dropped = f'.batch.dropped + (segments (length buf) segment - sent);
        };
        stats = note_upstream_send_error e now_ms f'.stats;
      })
      (a' ∙ a, b' ∙ b) (a, note_class-active (classify_udp_err e) now_ms f'.stats ∙ b)

pub forward_upstream_coalesced-Keeps :
    (buf : Bytes) (segment now_ms : ℕ) → Keeps (forward_upstream_coalesced buf segment now_ms)
unfolding forward_upstream_coalesced forward_all after_burst
forward_upstream_coalesced-Keeps buf segment now_ms f =
    let r = send_chunks buf segment f.entry.shared.upstream in
    if_both (SameSession f) f.entry.gso_ok (after_burst buf segment now_ms f r)
      (forward_all (chunks segment buf) now_ms f) (after_burst-Keeps buf segment now_ms r f)
      (forward_all-Keeps (chunks segment buf) now_ms f)
