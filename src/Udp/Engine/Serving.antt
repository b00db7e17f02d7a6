-- ===== src/Udp/Engine/Serving.antt =====
-- A client's datagrams keep the engine's invariant.

use rfw.Net.{SocketAddr, ip_eq}
use rfw.Base.{
  Bool-cases, Distinct, List, Option, Option-cases, [], ap, arith, if_both, inl, inr, length,
  length-append, list_eq, map, nat_eq, none, not, refl, some, subst, sym, ℕ, ◌++◌, ◌+◌, ◌<◌, ◌==◌,
  ◌∙◌, ◌∷◌, ◌≡◌, ◌≤◌,
}
use rfw.Stats.{add_rejected, inc_connections, mark_connect_failed, u64_max}
use rfw.Udp.Errors.{Batch}
use rfw.Udp.Session.{Forwarding, SessionEntry, forward_upstream, forward_upstream_coalesced}
use rfw.Udp.Session.Same.{Keeps, forward_upstream-Keeps, forward_upstream_coalesced-Keeps}
use rfw.Udp.Engine.{
  Connect, Engine, addr_eq, close_entries, close_entry, next_connect, connected, entry_of,
  forward_in, is_due, on_client_buffer, on_client_datagram, open_session, open_to, through_new,
  put_entry, refused, reject_session, remove_client, serve, with_socket,
}
use rfw.Udp.Engine.Invariant.{
  Accounts, Distinct-keep_if, IsEngine, clients, close_entries-sessions, close_entry-Accounts,
}
use rfw.Udp.Engine.Table.{
  Distinct-put_entry, entry_of-client, entry_of-others, length-others, PutEntry-known,
  put_entry-fresh,
}
use rfw.Udp.Chunks.{Bytes}
use rfw.Udp.Offload.{is_coalesced, segments}

-- What `open_session` did for a client.
abbrev Opened : ℕ → SocketAddr → Engine → Engine × Option SessionEntry → Type 0
Opened total client g (g', none) = IsEngine total g' × (g'.sessions ≡ g.sessions)
Opened total client g (g', some e) =
    Accounts total 1 g' × (g'.sessions ≡ g.sessions) × (e.shared.client ≡ client)

module _ (total : ℕ) (bound : total ≤ u64_max) where
  reject_session_lem :
      (client : SocketAddr) (n now : ℕ) (g : Engine)
      → IsEngine total g
      → Opened total client g (reject_session n now g, none)
  unfolding reject_session add_rejected
  reject_session_lem client n now g wf =
      if_both (λ x. Opened total client g (x, none)) (is_due g.last_limit_alert now) _ _
        (record { permits = wf.permits; active = wf.active; one_each = wf.one_each }, refl)
        (record { permits = wf.permits; active = wf.active; one_each = wf.one_each }, refl)

  with_socket_lem :
      (client remote : SocketAddr) (now_ms : ℕ) (g : Engine) (c : Connect)
      → 0 < g.udp_limit
      → IsEngine total g
      → Opened total client g (with_socket client remote now_ms g c)
  unfolding with_socket mark_connect_failed inc_connections
  with_socket_lem client remote now_ms g (refused e) room wf =
      (record { permits = wf.permits; active = wf.active; one_each = wf.one_each }, refl)
  with_socket_lem client remote now_ms g (connected w incoming gro_failed) room wf = (
    (omega (arith, wf.permits, room), omega (arith, wf.permits, wf.active, room, bound)),
    refl,
    refl,
  )

  open_to_lem :
      (client : SocketAddr) (now_ms now n : ℕ) (g : Engine) (targets : List SocketAddr)
      → IsEngine total g
      → Opened total client g (open_to client now_ms now n g targets)
  unfolding open_to mark_connect_failed reject_session
  open_to_lem client now_ms now n g [] wf =
      (record { permits = wf.permits; active = wf.active; one_each = wf.one_each }, refl)
  open_to_lem client now_ms now n g (remote ∷ later) wf = elim (Bool-cases (g.udp_limit == 0)) [
    | inl t ↦ rw (open_to, t) (reject_session_lem client n now g wf)
    | inr f ↦
        let (c, rest) = next_connect g.connects in
        rw (open_to, f)
          (with_socket_lem client remote now_ms (record g { connects = rest }) c (ground (arith, f))
            (record { permits = wf.permits; active = wf.active; one_each = wf.one_each }))
  ]

  forward_in_lem :
      (forward : Forwarding → Forwarding) (e : SessionEntry) (g : Engine) (b : Batch)
      → Keeps forward
      → IsEngine total g
      → entry_of g.sessions e.shared.client ≡ some e
      → IsEngine total (forward_in forward e g b).0
  unfolding forward_in
  forward_in_lem forward e g b keeps wf known =
      let f = forward (record { entry = e; batch = b; stats = g.stats }) in
      let (same, active) = keeps (record { entry = e; batch = b; stats = g.stats }) in
      let (size, clients_same) =
        PutEntry-known f.entry e g.sessions
          (subst (λ c. entry_of g.sessions c ≡ some e) (sym same) known) in
      record {
        permits = omega (arith, size, wf.permits);
        active = omega (arith, size, active, wf.active);
        one_each = subst Distinct (sym clients_same) wf.one_each;
      }

  through_new_lem :
      (forward : Forwarding → Forwarding) (client : SocketAddr) (n : ℕ) (g : Engine) (b : Batch)
      (r : Engine × Option SessionEntry)
      → Keeps forward
      → Distinct (clients g)
      → entry_of g.sessions client ≡ none
      → Opened total client g r
      → IsEngine total (through_new forward n b r).0
  unfolding through_new forward_in
  through_new_lem forward client n g b (g', none) keeps d unknown (wf, same) = wf
  through_new_lem forward client n g b (g', some e) keeps d unknown
        ((permits, active), same, of_client) =
      let start : Forwarding = record { entry = e; batch = b; stats = g'.stats } in
      let f = forward start in
      let (client_same, active_same) = keeps start in
      let here : f.entry.shared.client ≡ client = client_same ∙ of_client in
      let absent : entry_of g'.sessions f.entry.shared.client ≡ none = rw (same, here) unknown in
      let appended : put_entry f.entry g'.sessions ≡ g'.sessions ++ f.entry ∷ [] =
        put_entry-fresh f.entry g'.sessions absent in
      let size : length (put_entry f.entry g'.sessions) ≡ length g'.sessions + 1 =
        ap length appended ∙ length-append g'.sessions (f.entry ∷ []) in
      record {
        permits = omega (arith, size, permits);
        active = omega (arith, size, active_same, active);
        one_each =
            Distinct-put_entry f.entry g'.sessions absent
              (subst (λ es. Distinct (map (λ x. x.shared.client) es)) (sym same) d);
      }

  -- A dead session goes.
  reaped_lem :
      (client : SocketAddr) (e : SessionEntry) (g : Engine)
      → IsEngine total g
      → entry_of g.sessions client ≡ some e
      → let g' = close_entry e (remove_client client g) in
        IsEngine total g' × (entry_of g'.sessions client ≡ none)
  unfolding close_entry close_entries
  reaped_lem client e g wf known =
      let g' = remove_client client g in
      let size = length-others g.sessions client e wf.one_each known in
      let (permits, active) =
        close_entry-Accounts total bound e g' 0
          (omega (arith, size, wf.permits), omega (arith, size, wf.active)) in
      let same : (close_entry e g').sessions ≡ g'.sessions = close_entries-sessions (e ∷ []) g' in
      (
        record {
          permits = omega (arith, permits);
          active = omega (arith, active);
          one_each =
              subst (λ es. Distinct (map (λ x. x.shared.client) es)) (sym same)
                (Distinct-keep_if (λ x. not (x.shared.client == client)) g.sessions wf.one_each);
        },
        rw same (entry_of-others g.sessions client),
      )

  serve-IsEngine :
      (forward : Forwarding → Forwarding) (client : SocketAddr) (n now_ms now : ℕ) (g : Engine)
      (b : Batch)
      → Keeps forward
      → IsEngine total g
      → IsEngine total (serve forward client n now_ms now g b).0
  unfolding serve open_session open_to through_new forward_in
  serve-IsEngine forward client n now_ms now g b keeps wf =
      let fresh =
        λ (h : Engine) (w : IsEngine total h) (absent : entry_of h.sessions client ≡ none).
          through_new_lem forward client n h b (open_session client now_ms now n h) keeps w.one_each
            absent (open_to_lem client now_ms now n h h.targets w) in
      elim (Option-cases (entry_of g.sessions client)) [
        | inl unknown ↦ rw (serve, unknown) (fresh g wf unknown)
        | inr (e, known) ↦
            let closed = close_entry e (remove_client client g) in
            let (w, absent) = reaped_lem client e g wf known in
            let here = entry_of-client g.sessions client e known in
            rw (serve, known)
              (if_both (λ (r : Engine × Batch). IsEngine total r.0) e.shared.dead _ _
                (fresh closed w absent)
                (forward_in_lem forward e g b keeps wf
                  (subst (λ c. entry_of g.sessions c ≡ some e) (sym here) known)))
      ]

  pub on_client_buffer-IsEngine :
      (client : SocketAddr) (buf : Bytes) (segment now_ms now : ℕ) (g : Engine) (b : Batch)
      → IsEngine total g
      → IsEngine total (on_client_buffer client buf segment now_ms now g b).0
  unfolding on_client_buffer on_client_datagram serve
  on_client_buffer-IsEngine client buf segment now_ms now g b wf =
      if_both (λ (r : Engine × Batch). IsEngine total r.0) (is_coalesced (length buf) segment) _ _
        (serve-IsEngine (forward_upstream_coalesced buf segment now_ms) client
          (segments (length buf) segment) now_ms now g b
          (forward_upstream_coalesced-Keeps buf segment now_ms) wf)
        (serve-IsEngine (forward_upstream buf now_ms) client 1 now_ms now g b
          (forward_upstream-Keeps buf now_ms) wf)
