-- ===== src/Udp/Offload/Sends.antt =====
-- What `send_chunks` puts on the wire.

use rfw.Base.{
  All, Bool-cases, List, Option-cases, [], ap, append-nil, append_assoc, arith, drop, false,
  if◌then◌else◌, inl, inr, length, length-drop, length-take, list_eq, ltb, ltb→le, nat_eq, none,
  refl, some, subst, suc, sym, take, zero, ℕ, ◌*◌, ◌++◌, ◌+◌, ◌<◌, ◌==◌, ◌∙◌, ◌∷◌, ◌≡◌, ◌≤◌,
}
use rfw.Udp.Chunks.{Bytes, chunks, chunks-append, chunks-split, chunks_short, take-add}
use rfw.Udp.Errors.{IoError}
use rfw.Udp.Offload.{GsoSend, Wire, send_from, send_one, sent_all, stopped, stuck}

-- The datagrams that a receiver gets from one send.
abbrev pub split_send : Bytes × ℕ → List Bytes
split_send (chunk, seg) = if seg == 0 then chunk ∷ [] else chunks seg chunk

abbrev pub on_wire : List (Bytes × ℕ) → List Bytes
on_wire [] = []
on_wire (s ∷ sends) = split_send s ++ on_wire sends

pub on_wire-append : (xs ys : List (Bytes × ℕ)) → on_wire (xs ++ ys) ≡ on_wire xs ++ on_wire ys
on_wire-append [] ys = refl
on_wire-append (x ∷ xs) ys =
    ap (λ l. split_send x ++ l) (on_wire-append xs ys)
    ∙ sym (append_assoc (split_send x) (on_wire xs) (on_wire ys))

pub send_one-sent :
    (chunk : Bytes) (seg : ℕ) (w : Wire)
    → (send_one chunk seg w).1 ≡ none
    → (send_one chunk seg w).0.sent ≡ w.sent ++ (chunk, seg) ∷ []
unfolding send_one
send_one-sent chunk seg w h = ground arith

pub send_one-failed :
    (chunk : Bytes) (seg : ℕ) (w : Wire) (e : IoError)
    → (send_one chunk seg w).1 ≡ some e
    → (send_one chunk seg w).0.sent ≡ w.sent
unfolding send_one
send_one-failed chunk seg w e h = ground arith

abbrev size_for : ℕ → Bytes → ℕ
size_for segment chunk = if ltb segment (length chunk) then segment else 0

-- A send carries the pieces of its bytes.
split_send_lem :
    (segment b : ℕ) (rest : Bytes)
    → 0 < segment
    → split_send (b ∷ rest, size_for segment (b ∷ rest)) ≡ chunks segment (b ∷ rest)
split_send_lem segment b rest pos = elim (Bool-cases (ltb segment (length (b ∷ rest)))) [
  | inl t ↦ let ne : (segment == 0) ≡ false = ground arith in rw (t, ne)
  | inr f ↦ rw f (sym (chunks_short segment b rest (ltb→le segment (length (b ∷ rest)) f)))
]

-- What a call that ended with `r` put on the wire.
abbrev pub SentUpTo : ℕ → ℕ → Bytes → List Bytes → GsoSend → Type 0
SentUpTo segment off buf datagrams sent_all = datagrams ≡ chunks segment buf
SentUpTo segment off buf datagrams stuck = ⊥
SentUpTo segment off buf datagrams (stopped from e) =
    (k : ℕ) × (from ≡ off + k * segment)
    × (k * segment < length buf)
    × (datagrams ≡ chunks segment (take (k * segment) buf))

-- The sends that a call makes.
abbrev Made : ℕ → ℕ → ℕ → Bytes → Wire → Wire × GsoSend → Type 0
Made segment step off buf w (w', r) =
    (new : List (Bytes × ℕ)) × (w'.sent ≡ w.sent ++ new)
    × All (λ s. length s.0 ≤ step) new
    × SentUpTo segment off buf (on_wire new) r

-- A round of the loop whose send fails, and one whose send succeeds.
send_from_failed :
    (fuel s segment off b : ℕ) (rest : Bytes) (w : Wire) (e : IoError)
    → let chunk = take (suc s) (b ∷ rest) in
      let round = send_one chunk (size_for segment chunk) w in
      round.1 ≡ some e
      → send_from (suc fuel) (suc s) segment off (b ∷ rest) w ≡ (round.0, stopped off e)
unfolding send_from
send_from_failed fuel s segment off b rest w e h = rw (send_from, h)

send_from_sent :
    (fuel s segment off b : ℕ) (rest : Bytes) (w : Wire)
    → let chunk = take (suc s) (b ∷ rest) in
      let round = send_one chunk (size_for segment chunk) w in
      round.1 ≡ none
      → send_from (suc fuel) (suc s) segment off (b ∷ rest) w
        ≡ send_from fuel (suc s) segment (off + length chunk) (drop (suc s) (b ∷ rest)) round.0
unfolding send_from
send_from_sent fuel s segment off b rest w h = rw (send_from, h)

module _ (segment m s : ℕ) (pos : 0 < segment) (whole : suc s ≡ m * segment) where
  SentUpTo-cons :
      (off b : ℕ) (rest : Bytes) (later : List Bytes) (r : GsoSend)
      → let chunk = take (suc s) (b ∷ rest) in
        SentUpTo segment (off + length chunk) (drop (suc s) (b ∷ rest)) later r
        → SentUpTo segment off (b ∷ rest) (split_send (chunk, size_for segment chunk) ++ later) r
  SentUpTo-cons off b rest later sent_all h =
      rw (split_send_lem segment b (take s rest) pos, h)
        (sym (chunks-split m segment (suc s) (b ∷ rest) pos whole))
  SentUpTo-cons off b rest later stuck h = elim h [ ]
  SentUpTo-cons off b rest later (stopped from e) (k, from_lem, lt, same) =
      let xs = b ∷ rest in
      let sum : (m + k) * segment ≡ suc s + k * segment = grind arith in
      let full : length (take (suc s) xs) ≡ suc s =
        omega (arith, length-take (suc s) xs, length-drop (suc s) xs, lt) in
      (
        m + k,
        omega (arith, from_lem, sum, full),
        omega (arith, sum, lt, length-drop (suc s) xs),
        rw
            (
              split_send_lem segment b (take s rest) pos,
              same,
              sum,
              take-add (suc s) (k * segment) xs,
            )
            (sym (
              chunks-append m segment (take (suc s) xs) (take (k * segment) (drop (suc s) xs)) pos
                (full ∙ whole))),
      )

  pub send_from_lem :
      (fuel off : ℕ) (buf : Bytes) (w : Wire)
      → length buf ≤ fuel
      → Made segment (suc s) off buf w (send_from fuel (suc s) segment off buf w)
  unfolding send_from chunks
  send_from_lem fuel off [] w h = ([], sym (append-nil w.sent), tt, refl)
  send_from_lem zero off (b ∷ rest) w h = absurd (omega arith)
  send_from_lem (suc fuel) off (b ∷ rest) w h =
      let chunk = take (suc s) (b ∷ rest) in
      let size = size_for segment chunk in
      elim (Option-cases (send_one chunk size w).1) [
        | inr (e, failed) ↦
            subst (Made segment (suc s) off (b ∷ rest) w)
              (sym (send_from_failed fuel s segment off b rest w e failed))
              (
                [],
                send_one-failed chunk size w e failed ∙ sym (append-nil w.sent),
                tt,
                (
                  0,
                  omega arith,
                  omega arith,
                  let nothing : 0 * segment ≡ 0 = omega arith in rw nothing,
                ),
              )
        | inl went ↦
            let (new, log, bound, upto) =
              send_from_lem fuel (off + length chunk) (drop (suc s) (b ∷ rest))
                (send_one chunk size w).0 (omega (arith, length-drop (suc s) (b ∷ rest))) in
            subst (Made segment (suc s) off (b ∷ rest) w)
              (sym (send_from_sent fuel s segment off b rest w went))
              (
                (chunk, size) ∷ new,
                log
                    ∙ ap (λ l. l ++ new) (send_one-sent chunk size w went)
                    ∙ append_assoc w.sent ((chunk, size) ∷ []) new,
                (omega (arith, length-take (suc s) (b ∷ rest)), bound),
                SentUpTo-cons off b rest (on_wire new)
                    (send_from fuel (suc s) segment (off + length chunk) (drop (suc s) (b ∷ rest))
                      (send_one chunk size w).0).1
                    upto,
              )
      ]
