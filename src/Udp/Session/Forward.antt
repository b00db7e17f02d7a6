-- ===== src/Udp/Session/Forward.antt =====
-- What becomes of a client's datagrams.

use rfw.Base.{
  Bool-cases, List, Option-cases, [], ap, arith, drop, false, if_both, inl, inr, length,
  length-append, refl, subst, sym, true, ℕ, ◌++◌, ◌+◌, ◌-◌, ◌/◌, ◌<◌, ◌∙◌, ◌∷◌, ◌≡◌,
}
use rfw.Udp.Chunks.{Bytes, chunks, length-chunks}
use rfw.Udp.Offload.{
  GsoSend, Wire, is_coalesced, is_fallback_error, segments, send_chunks, send_one, sent_all,
  stopped, stuck,
}
use rfw.Udp.Offload.Sends.{SentUpTo, on_wire, send_one-failed, send_one-sent}
use rfw.Udp.Offload.Bounds.{send_chunks-SentUpTo}
use rfw.Udp.Offload.Account.{
  Accounted, all_lost, and_then, counting_lem, nothing_yet, one_sent, widen,
}
use rfw.Udp.Session.{
  Forwarding, after_burst, forward_all, forward_upstream, forward_upstream_coalesced,
  sent_datagrams, touch,
}

-- The counters of a wake-up, from `f` to `f'`.
abbrev pub Forwards : List Bytes → Forwarding → Forwarding → Type 0
Forwards arrived f f' =
    Accounted arrived [] f.entry.shared.upstream f.batch f'.entry.shared.upstream f'.batch

pub forward_one :
    (piece : Bytes) (now_ms : ℕ) (f : Forwarding)
    → Forwards (piece ∷ []) f (forward_upstream piece now_ms f)
unfolding forward_upstream touch
forward_one piece now_ms f =
    let w = f.entry.shared.upstream in
    elim (Option-cases (send_one piece 0 w).1) [
      | inl went ↦
          rw (forward_upstream, went)
            (one_sent piece w (send_one piece 0 w).0 f.batch (send_one-sent piece 0 w went))
      | inr (e, failed) ↦
          rw (forward_upstream, failed)
            (all_lost (piece ∷ []) w (send_one piece 0 w).0 f.batch
              (record f.batch { dropped = f.batch.dropped + 1 })
              (send_one-failed piece 0 w e failed) refl refl refl)
    ]

forward_all_lem :
    (pieces : List Bytes) (now_ms : ℕ) (f : Forwarding)
    → Forwards pieces f (forward_all pieces now_ms f)
unfolding forward_all
forward_all_lem [] now_ms f = nothing_yet [] f.entry.shared.upstream f.batch
forward_all_lem (piece ∷ pieces) now_ms f =
    let f' = forward_upstream piece now_ms f in
    let f'' = forward_all pieces now_ms f' in
    let w = f.entry.shared.upstream in
    let w' = f'.entry.shared.upstream in
    and_then (piece ∷ pieces) pieces [] w f.batch w' f'.batch f''.entry.shared.upstream f''.batch
      (widen (piece ∷ []) [] w f.batch w' f'.batch pieces (forward_one piece now_ms f))
      (forward_all_lem pieces now_ms f')

sent_datagrams_upstream :
    (n bytes now_ms : ℕ) (w : Wire) (f : Forwarding)
    → (sent_datagrams n bytes now_ms w f).entry.shared.upstream ≡ w
unfolding touch
sent_datagrams_upstream n bytes now_ms w f = ground arith

pub burst_full : (len segment : ℕ) → is_coalesced len segment ≡ true → 0 < len
unfolding is_coalesced
burst_full len segment h = ground arith

module _ (buf : Bytes) (segment now_ms : ℕ) (f : Forwarding) (pos : 0 < segment) where
  after_burst_lem :
      (w' : Wire) (r : GsoSend) (new : List (Bytes × ℕ))
      → w'.sent ≡ f.entry.shared.upstream.sent ++ new
      → is_coalesced (length buf) segment ≡ true
      → SentUpTo segment 0 buf (on_wire new) r
      → Forwards (chunks segment buf) f (after_burst buf segment now_ms f (w', r))
  unfolding after_burst chunks segments touch
  after_burst_lem w' sent_all new log burst upto =
      counting_lem segment buf f.entry.shared.upstream f.batch pos w' sent_all new log burst upto
  after_burst_lem w' stuck new log burst upto = elim upto [ ]
  after_burst_lem w' (stopped from e) new log burst upto =
      let w = f.entry.shared.upstream in
      let part = counting_lem segment buf w f.batch pos w' (stopped from e) new log burst upto in
      let f' = sent_datagrams (from / segment) from now_ms w' f in
      let left = chunks segment (drop from buf) in
      let upto_here =
        subst (λ u. Accounted (chunks segment buf) left w f.batch u f'.batch)
          (sym (sent_datagrams_upstream (from / segment) from now_ms w' f)) part in
      elim (Bool-cases (is_fallback_error e)) [
        | inl t ↦
            let retry = record f' { entry = record f'.entry { gso_ok = false } } in
            let f'' = forward_all left now_ms retry in
            rw (after_burst, t)
              (and_then (chunks segment buf) left [] w f.batch f'.entry.shared.upstream f'.batch
                f''.entry.shared.upstream f''.batch upto_here (forward_all_lem left now_ms retry))
        | inr n ↦
            let number : segments (length buf) segment ≡ length (chunks segment buf) =
              rw burst (sym (length-chunks segment buf pos)) in
            let sum : length (chunks segment buf) ≡ length part.handled + length left =
              ap length part.split ∙ length-append part.handled left in
            let missing : segments (length buf) segment - from / segment ≡ length left =
              omega (arith, number, sum, part.counted, part.all_counted) in
            let b' = record f'.batch {
              dropped = f'.batch.dropped + (segments (length buf) segment - from / segment);
            } in
            rw (after_burst, n)
              (and_then (chunks segment buf) left [] w f.batch f'.entry.shared.upstream f'.batch
                f'.entry.shared.upstream b' upto_here
                (all_lost left f'.entry.shared.upstream f'.entry.shared.upstream f'.batch b' refl
                  refl refl (omega (arith, missing))))
      ]

  -- A client's burst, with a segment size that splits it: each of its datagrams is sent whole and in its
  -- order, or counted as dropped, also when the system refuses to split it in the middle of the burst.
  pub forward_upstream_coalesced_lem :
      is_coalesced (length buf) segment ≡ true
      → Forwards (chunks segment buf) f (forward_upstream_coalesced buf segment now_ms f)
  unfolding forward_upstream_coalesced forward_all
  forward_upstream_coalesced_lem burst =
      let w = f.entry.shared.upstream in
      let r = send_chunks buf segment w in
      let (new, log, upto) =
        send_chunks-SentUpTo buf segment w pos (burst_full (length buf) segment burst) in
      if_both (Forwards (chunks segment buf) f) f.entry.gso_ok (after_burst buf segment now_ms f r)
        (forward_all (chunks segment buf) now_ms f) (after_burst_lem r.0 r.1 new log burst upto)
        (forward_all_lem (chunks segment buf) now_ms f)
