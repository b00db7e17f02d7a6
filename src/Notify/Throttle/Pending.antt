-- ===== src/Notify/Throttle/Pending.antt =====
-- How many events the entries of the `Throttle` of `src/notify.rs` hold back.

use rfw.Text.{Text}
use rfw.Base.{
  Bool-cases, Option, Option-cases, [], arith, if◌then◌else◌, inl, inr, leb, list_beq_iff, list_eq,
  ltb, nat_eq, none, refl, some, ℕ, ◌&&◌, ◌+◌, ◌-◌, ◌==◌, ◌∷◌, ◌≡◌,
}
use rfw.Notify.Throttle.{
  Admit, Throttle, ThrottleEntry, admit, admit_entry, get, prune, put, send, suppress,
}

-- The time without a message after which an entry is dropped, an hour.
abbrev pub max_idle : ℕ
max_idle = 3_600_000

-- Events of a key that are held back and not yet reported.
abbrev pub pending : Text → Throttle → ℕ
pending k [] = 0
pending k ((key, e) ∷ t) = (if key == k then e.suppressed else 0) + pending k t

-- Those of them in entries whose latest message is an hour old.
abbrev pub idle : Text → ℕ → Throttle → ℕ
idle k now [] = 0
idle k now ((key, e) ∷ t) =
    (if key == k && leb max_idle (now - e.last_sent) then e.suppressed else 0) + idle k now t

abbrev pending_of : Option ThrottleEntry → ℕ
pending_of none = 0
pending_of (some e) = e.suppressed

pending-put :
    (k key : Text) (e : ThrottleEntry) (t : Throttle)
    → pending k (put key e t) + (if key == k then pending_of (get key t) else 0)
      ≡ pending k t + (if key == k then e.suppressed else 0)
unfolding get put
pending-put k key e [] = ground arith
pending-put k key e ((key', d) ∷ t) =
    ground
      (arith, list_beq_iff key' key, list_beq_iff key' k, list_beq_iff key k, pending-put k key e t)

-- A prune drops what is held back in the idle entries, and nothing else.
pub pending-prune :
    (k : Text) (now : ℕ) (t : Throttle)
    → pending k (prune now max_idle t) + idle k now t ≡ pending k t
unfolding prune
pending-prune k now [] = refl
pending-prune k now ((key, e) ∷ t) = ground (arith, pending-prune k now t)

abbrev pub reported_by : Admit → ℕ
reported_by (send n) = n
reported_by suppress = 0

abbrev pub held_by : Admit → ℕ
held_by (send n) = 0
held_by suppress = 1

-- A call for a key reports what was held back of it, or holds the event back.
pub pending-admit :
    (k key : Text) (window now : ℕ) (t : Throttle)
    → let (t', outcome) = admit key window now t in
      pending k t' + (if key == k then reported_by outcome else 0)
      ≡ pending k t + (if key == k then held_by outcome else 0)
unfolding admit
pending-admit k key window now t = elim (Option-cases (get key t)) [
  | inl h ↦
      let e : ThrottleEntry = record { last_sent = now; suppressed = 0 } in
      rw (h, admit_entry) (ground (arith, pending-put k key e t, h))
  | inr (d, h) ↦
      let held : ThrottleEntry = record d { suppressed = d.suppressed + 1 } in
      let sent : ThrottleEntry = record { last_sent = now; suppressed = 0 } in
      elim (Bool-cases (ltb (now - d.last_sent) window)) [
        | inl q ↦ rw (h, admit_entry, q) (ground (arith, pending-put k key held t, h))
        | inr q ↦ rw (h, admit_entry, q) (ground (arith, pending-put k key sent t, h))
      ]
]
