-- ===== src/Udp/Listener/Counts.antt =====
-- The datagrams of a wake-up of the listener, and its offload state.

use rfw.Text.{split}
use rfw.Net.{SocketAddr}
use rfw.Base.{
  Bool, List, Option, Option-cases, Result, [], ap, append_assoc, arith, err, false, if_both, inl,
  inr, length, none, not, ok, refl, some, suc, sym, true, zero, ℕ, ◌&&◌, ◌++◌, ◌+◌, ◌||◌, ◌∙◌, ◌∷◌,
  ◌≡◌,
}
use rfw.Udp.Errors.{IoError}
use rfw.Udp.Session.{Recv}
use rfw.Udp.Replies.{recv_once}
use rfw.Udp.Replies.Accounts.{segments_lem}
use rfw.Udp.Replies.Drain.{arrived_in}
use rfw.Udp.Engine.{ListenerOffload}
use rfw.Udp.Engine.Served.{on_client_buffer_lem, told-on_client_datagram, told}
use rfw.Udp.Listener.{
  Listening, apply_gro_knob, from_client, from_sender, listen_rounds, on_heard, set_on,
}

-- How many datagrams came from clients.
abbrev heard_from : Bool → Option SocketAddr → Recv → ℕ
heard_from gro none got = 0
heard_from gro (some client) got = length (arrived_in gro got)

abbrev heard_in : Bool → Result IoError Recv → ℕ
heard_in gro (err e) = 0
heard_in gro (ok got) = heard_from gro got.sender got

abbrev pub count_heard : Bool → List (Result IoError Recv) → ℕ
count_heard gro [] = 0
count_heard gro (x ∷ xs) = heard_in gro x + count_heard gro xs

told-from_client :
    (gro : Bool) (client : SocketAddr) (got : Recv) (now_ms now : ℕ) (l : Listening)
    → let l' = from_client gro client got now_ms now l in
      (l'.heard ≡ l.heard) × (told l'.batch ≡ told l.batch + length (arrived_in gro got))
unfolding from_client
told-from_client false client got now_ms now l =
    (refl, told-on_client_datagram client got.received now_ms now l.engine l.batch)
told-from_client true client got now_ms now l =
    if_both
      (λ (l' : Listening).
        (l'.heard ≡ l.heard) × (told l'.batch ≡ told l.batch + length (arrived_in true got)))
      got.truncated _ _ (refl, omega (arith, segments_lem got.received got.segment))
      (refl, on_client_buffer_lem client got.received got.segment now_ms now l.engine l.batch)

told-from_sender :
    (gro : Bool) (sender : Option SocketAddr) (got : Recv) (now_ms now : ℕ) (l : Listening)
    → let l' = from_sender gro sender got now_ms now l in
      (l'.heard ≡ l.heard) × (told l'.batch ≡ told l.batch + heard_from gro sender got)
unfolding from_sender
told-from_sender gro none got now_ms now l = (refl, omega arith)
told-from_sender gro (some client) got now_ms now l = told-from_client gro client got now_ms now l

told-on_heard :
    (gro : Bool) (now_ms now : ℕ) (l : Listening) (x : Result IoError Recv)
    → let l' = (on_heard gro now_ms now l x).0 in
      (l'.heard ≡ l.heard) × (told l'.batch ≡ told l.batch + heard_in gro x)
unfolding on_heard
told-on_heard gro now_ms now l (err e) = (refl, omega arith)
told-on_heard gro now_ms now l (ok got) = told-from_sender gro got.sender got now_ms now l

recv_once_lem :
    (gro : Bool) (incoming : List (Result IoError Recv))
    → let (x, rest) = recv_once incoming in
      (taken : List (Result IoError Recv)) × (incoming ≡ taken ++ rest)
      × (count_heard gro taken ≡ heard_in gro x)
recv_once_lem gro [] = ([], refl, refl)
recv_once_lem gro (x ∷ xs) = (x ∷ [], refl, omega arith)

count_heard-append :
    (gro : Bool) (xs ys : List (Result IoError Recv))
    → count_heard gro (xs ++ ys) ≡ count_heard gro xs + count_heard gro ys
count_heard-append gro [] ys = omega arith
count_heard-append gro (x ∷ xs) ys = omega (arith, count_heard-append gro xs ys)

-- The listener takes a first part of what it can receive, and the batch tells of exactly the datagrams
-- in it that came with a client's address: forwarded or dropped, bursts by their pieces.
pub listen_rounds_lem :
    (gro : Bool) (now_ms now n : ℕ) (l : Listening)
    → let l' = (listen_rounds gro now_ms now n l).0 in
      (taken : List (Result IoError Recv)) × (l.heard ≡ taken ++ l'.heard)
      × (told l'.batch ≡ told l.batch + count_heard gro taken)
unfolding listen_rounds
listen_rounds_lem gro now_ms now zero l = ([], refl, omega arith)
listen_rounds_lem gro now_ms now (suc n) l =
    let (x, rest) = recv_once l.heard in
    let step = on_heard gro now_ms now (record l { heard = rest }) x in
    let (taken, split, count) = recv_once_lem gro l.heard in
    let (kept_heard, more) = told-on_heard gro now_ms now (record l { heard = rest }) x in
    elim (Option-cases step.1) [
      | inr (o, stops) ↦
          rw (listen_rounds, stops)
            (taken, split ∙ ap (λ k. taken ++ k) (sym kept_heard), omega (arith, more, count))
      | inl goes ↦
          let (taken', split', count') = listen_rounds_lem gro now_ms now n step.0 in
          let rest' = (listen_rounds gro now_ms now n step.0).0.heard in
          rw (listen_rounds, goes)
            (
              taken ++ taken',
              split
                  ∙ ap (λ k. taken ++ k) (sym kept_heard ∙ split')
                  ∙ sym (append_assoc taken taken' rest'),
              omega (arith, more, count, count', count_heard-append gro taken taken'),
            )
    ]

-- Offloading is on only with the option set, and then the receives know of bursts.
abbrev pub IsOffload : ListenerOffload → Type 0
IsOffload off =
    ((not off.enabled || off.gro_set) ≡ true) × ((not off.gro_set || off.gro_aware) ≡ true)

-- From a state where offloading is on only with the option set, and the option set only with receives
-- that know of bursts, applying the knob leads to such a state. Offloading is then on only if the knob
-- is and the system supports it, and what is set or found unsupported stays so.
pub apply_gro_knob_lem :
    (knob : Bool) (set_gro : Option IoError) (off : ListenerOffload)
    → IsOffload off
    → let off' = apply_gro_knob knob set_gro off in
      IsOffload off'
      × ((not off'.enabled || (knob && not off.unsupported)) ≡ true)
      × ((not off.gro_set || off'.gro_set) ≡ true)
      × ((not off.unsupported || off'.unsupported) ≡ true)
unfolding apply_gro_knob set_on
apply_gro_knob_lem knob none off h = ground (arith, h)
apply_gro_knob_lem knob (some e) off h = ground (arith, h)
