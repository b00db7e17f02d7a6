-- ===== src/Udp/Engine/Served.antt =====
-- What becomes of the datagrams that the listener receives.

use rfw.Net.{SocketAddr}
use rfw.Base.{
  Bool-cases, List, Option, Option-cases, [], ap, append-nil, arith, if_both, inl, inr, length,
  none, refl, some, sym, ℕ, ◌+◌, ◌∙◌, ◌∷◌, ◌≡◌,
}
use rfw.Udp.Chunks.{Bytes, chunks}
use rfw.Udp.Errors.{Batch}
use rfw.Udp.Offload.{is_coalesced, segments}
use rfw.Udp.Replies.Accounts.{coalesced_pos, datagrams_in, segments_lem}
use rfw.Udp.Session.{Forwarding, SessionEntry, forward_upstream, forward_upstream_coalesced}
use rfw.Udp.Session.Forward.{Forwards, forward_one, forward_upstream_coalesced_lem}
use rfw.Udp.Engine.{
  Engine, close_entry, entry_of, forward_in, on_client_buffer, on_client_datagram, open_session,
  through_new, remove_client, serve,
}

-- The datagrams that a batch tells of.
abbrev pub told : Batch → ℕ
told b = b.datagrams + b.dropped

abbrev Tells : ℕ → (Forwarding → Forwarding) → Type 0
Tells n forward = (f : Forwarding) → told (forward f).batch ≡ told f.batch + n

told-Forwards :
    (arrived : List Bytes) (f f' : Forwarding)
    → Forwards arrived f f'
    → told f'.batch ≡ told f.batch + length arrived
told-Forwards arrived f f' acc =
    let size : length arrived ≡ length acc.handled =
      ap length (acc.split ∙ append-nil acc.handled) in
    omega (arith, acc.all_counted, size)

told-through_new :
    (n : ℕ) (forward : Forwarding → Forwarding) (b : Batch) (r : Engine × Option SessionEntry)
    → Tells n forward
    → told (through_new forward n b r).1 ≡ told b + n
unfolding through_new forward_in
told-through_new n forward b (g, none) tells = omega arith
told-through_new n forward b (g, some e) tells =
    tells (record { entry = e; batch = b; stats = g.stats })

told-serve :
    (n : ℕ) (forward : Forwarding → Forwarding) (client : SocketAddr) (now_ms now : ℕ) (g : Engine)
    (b : Batch)
    → Tells n forward
    → told (serve forward client n now_ms now g b).1 ≡ told b + n
unfolding serve through_new forward_in
told-serve n forward client now_ms now g b tells =
    elim (Option-cases (entry_of g.sessions client)) [
      | inl unknown ↦
          rw (serve, unknown)
            (told-through_new n forward b (open_session client now_ms now n g) tells)
      | inr (e, known) ↦
          let closed = close_entry e (remove_client client g) in
          rw (serve, known)
            (if_both (λ (r : Engine × Batch). told r.1 ≡ told b + n) e.shared.dead _ _
              (told-through_new n forward b (open_session client now_ms now n closed) tells)
              (tells (record { entry = e; batch = b; stats = g.stats })))
    ]

pub told-on_client_datagram :
    (client : SocketAddr) (piece : Bytes) (now_ms now : ℕ) (g : Engine) (b : Batch)
    → told (on_client_datagram client piece now_ms now g b).1 ≡ told b + 1
unfolding on_client_datagram serve
told-on_client_datagram client piece now_ms now g b =
    let forward = forward_upstream piece now_ms in
    told-serve 1 forward client now_ms now g b
      (λ x. told-Forwards (piece ∷ []) x (forward x) (forward_one piece now_ms x))

-- ok
pub on_client_buffer_lem :
    (client : SocketAddr) (buf : Bytes) (segment now_ms now : ℕ) (g : Engine) (b : Batch)
    → told (on_client_buffer client buf segment now_ms now g b).1
      ≡ told b + length (datagrams_in buf segment)
unfolding on_client_buffer on_client_datagram segments serve
on_client_buffer_lem client buf segment now_ms now g b =
    let count = segments_lem buf segment in
    elim (Bool-cases (is_coalesced (length buf) segment)) [
      | inl t ↦
          let n = segments (length buf) segment in
          let forward = forward_upstream_coalesced buf segment now_ms in
          let same : datagrams_in buf segment ≡ chunks segment buf = rw t refl in
          let chosen : on_client_buffer client buf segment now_ms now g b
              ≡ serve forward client n now_ms now g b =
            rw (on_client_buffer, t) refl in
          ap (λ r. told r.1) chosen
          ∙ told-serve n forward client now_ms now g b (λ f.
            told-Forwards (chunks segment buf) f (forward f) (
              forward_upstream_coalesced_lem buf segment now_ms f
                (coalesced_pos (length buf) segment t) t)
            ∙ ap (λ k. told f.batch + k) (ap length (sym same) ∙ sym count))
          ∙ ap (λ k. told b + k) count
      | inr f ↦ rw (on_client_buffer, f) (told-on_client_datagram client buf now_ms now g b)
    ]
