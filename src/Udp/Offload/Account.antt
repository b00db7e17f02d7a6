-- ===== src/Udp/Offload/Account.antt =====
-- What a batch's counters say of the datagrams that it handled.

use native.Mathlib.Nat.{add-div_right, div-eq_of_lt, mul-div_cancel}
use rfw.Base.{
  List, [], ap, append-nil, append_assoc, arith, drop, length, length-append, length-take, refl,
  suc, sym, take, true, zero, ℕ, ◌*◌, ◌++◌, ◌+◌, ◌-◌, ◌/◌, ◌<◌, ◌∙◌, ◌∷◌, ◌≡◌,
}
use rfw.Udp.Chunks.{Bytes, chunks, chunks-split, concat, concat-chunks, length-chunks}
use rfw.Udp.Errors.{Batch}
use rfw.Udp.Offload.{GsoSend, Wire, is_coalesced, segments, sent_all, stopped, stuck}
use rfw.Udp.Offload.Sends.{SentUpTo, on_wire, on_wire-append}

-- The first list is the second one without some of its elements.
pub data Kept : List Bytes → List Bytes → Type 0 where
  kept_none : Kept [] []
  kept : {x : Bytes} {xs ys : List Bytes} → Kept xs ys → Kept (x ∷ xs) (x ∷ ys)
  lost : {y : Bytes} {xs ys : List Bytes} → Kept xs ys → Kept xs (y ∷ ys)

pub Kept-refl : (xs : List Bytes) → Kept xs xs
Kept-refl [] = kept_none
Kept-refl (x ∷ xs) = kept (Kept-refl xs)

lost_all : (ys : List Bytes) → Kept [] ys
lost_all [] = kept_none
lost_all (y ∷ ys) = lost (lost_all ys)

Kept-append :
    {xs ys : List Bytes} (cs ds : List Bytes) → Kept xs ys → Kept cs ds → Kept (xs ++ cs) (ys ++ ds)
Kept-append cs ds kept_none q = q
Kept-append cs ds (kept p) q = kept (Kept-append cs ds p q)
Kept-append cs ds (lost p) q = lost (Kept-append cs ds p q)

-- From `w` and `b` to `w'` and `b'`, the datagrams of `arrived` before `left` were handled: each was
-- sent whole and in its order, or lost; the counters tell which.
pub record Accounted (arrived left : List Bytes) (w : Wire) (b : Batch) (w' : Wire) (b' : Batch)
    : Type 0 where
  pub new : List (Bytes × ℕ)
  pub handled : List Bytes
  pub log : w'.sent ≡ w.sent ++ new
  pub split : arrived ≡ handled ++ left
  pub whole : Kept (on_wire new) handled
  pub counted : b'.datagrams ≡ b.datagrams + length (on_wire new)
  pub all_counted : b'.datagrams + b'.dropped ≡ b.datagrams + b.dropped + length handled
  pub bytes_counted : b'.bytes ≡ b.bytes + length (concat (on_wire new))

concat-append : (xs ys : List Bytes) → concat (xs ++ ys) ≡ concat xs ++ concat ys
concat-append [] ys = refl
concat-append (x ∷ xs) ys =
    ap (λ l. x ++ l) (concat-append xs ys) ∙ sym (append_assoc x (concat xs) (concat ys))

-- All of `arrived` is left.
pub nothing_sent :
    (arrived : List Bytes) (w w' : Wire) (b : Batch)
    → w'.sent ≡ w.sent
    → Accounted arrived arrived w b w' b
nothing_sent arrived w w' b same = record {
  new = [];
  handled = [];
  log = same ∙ sym (append-nil w.sent);
  split = refl;
  whole = kept_none;
  counted = omega arith;
  all_counted = omega arith;
  bytes_counted = omega arith;
}

pub nothing_yet : (arrived : List Bytes) (w : Wire) (b : Batch) → Accounted arrived arrived w b w b
nothing_yet arrived w b = nothing_sent arrived w w b refl

-- All of `arrived` is lost.
pub all_lost :
    (arrived : List Bytes) (w w' : Wire) (b b' : Batch)
    → w'.sent ≡ w.sent
    → b'.datagrams ≡ b.datagrams
    → b'.bytes ≡ b.bytes
    → b'.dropped ≡ b.dropped + length arrived
    → Accounted arrived [] w b w' b'
all_lost arrived w w' b b' same_log same_count same_bytes more = record {
  new = [];
  handled = arrived;
  log = same_log ∙ sym (append-nil w.sent);
  split = sym (append-nil arrived);
  whole = lost_all arrived;
  counted = omega (arith, same_count);
  all_counted = omega (arith, same_count, more);
  bytes_counted = omega (arith, same_bytes);
}

-- One datagram is sent.
pub one_sent :
    (piece : Bytes) (w w' : Wire) (b : Batch)
    → w'.sent ≡ w.sent ++ (piece, 0) ∷ []
    → Accounted
        (piece ∷ [])
        []
        w
        b
        w'
        (record b { datagrams = b.datagrams + 1; bytes = b.bytes + length piece })
one_sent piece w w' b log = record {
  new = (piece, 0) ∷ [];
  handled = piece ∷ [];
  log = log;
  split = refl;
  whole = kept kept_none;
  counted = omega arith;
  all_counted = omega arith;
  bytes_counted = rw (append-nil piece) refl;
}

module _ (arrived middle left : List Bytes) (w : Wire) (b : Batch) (w' : Wire) (b' : Batch) where
  pub and_then :
      (w'' : Wire) (b'' : Batch)
      → Accounted arrived middle w b w' b'
      → Accounted middle left w' b' w'' b''
      → Accounted arrived left w b w'' b''
  and_then w'' b'' p q =
      let joined : on_wire (p.new ++ q.new) ≡ on_wire p.new ++ on_wire q.new =
        on_wire-append p.new q.new in
      record {
        new = p.new ++ q.new;
        handled = p.handled ++ q.handled;
        log = q.log ∙ ap (λ l. l ++ q.new) p.log ∙ append_assoc w.sent p.new q.new;
        split =
            p.split
            ∙ ap (λ l. p.handled ++ l) q.split
            ∙ sym (append_assoc p.handled q.handled left);
        whole = rw joined (Kept-append (on_wire q.new) q.handled p.whole q.whole);
        counted =
            rw (joined, length-append (on_wire p.new) (on_wire q.new))
              (omega (arith, p.counted, q.counted));
        all_counted =
            rw (length-append p.handled q.handled) (omega (arith, p.all_counted, q.all_counted));
        bytes_counted =
            rw
              (
                joined,
                concat-append (on_wire p.new) (on_wire q.new),
                length-append (concat (on_wire p.new)) (concat (on_wire q.new)),
              )
              (omega (arith, p.bytes_counted, q.bytes_counted));
      }

-- Datagrams that arrive later stay where they are.
pub widen :
    (arrived left : List Bytes) (w : Wire) (b : Batch) (w' : Wire) (b' : Batch)
    → (later : List Bytes) → Accounted arrived left w b w' b'
    → Accounted (arrived ++ later) (left ++ later) w b w' b'
widen arrived left w b w' b' later p = record {
  new = p.new;
  handled = p.handled;
  log = p.log;
  split = ap (λ l. l ++ later) p.split ∙ append_assoc p.handled left later;
  whole = p.whole;
  counted = p.counted;
  all_counted = p.all_counted;
  bytes_counted = p.bytes_counted;
}

-- What a caller of `send_chunks` counts.
abbrev pub counting : ℕ → Bytes → Batch → GsoSend → Batch
counting segment buf b sent_all = record b {
  datagrams = b.datagrams + segments (length buf) segment;
  bytes = b.bytes + length buf;
}
counting segment buf b stuck = b
counting segment buf b (stopped from e) = record b {
  datagrams = b.datagrams + from / segment;
  bytes = b.bytes + from;
}

abbrev pub left_after : Bytes → GsoSend → Bytes
left_after buf sent_all = []
left_after buf stuck = buf
left_after buf (stopped from e) = drop from buf

whole_div : (k n : ℕ) → 0 < n → (k * n + n - 1) / n ≡ k
whole_div zero n pos =
    let e : 0 * n + n - 1 ≡ n - 1 = grind arith in rw e (div-eq_of_lt (omega arith))
whole_div (suc k) n pos =
    let e : suc k * n + n - 1 ≡ (k * n + n - 1) + n = grind arith in
    rw e (omega (arith, add-div_right (k * n + n - 1) pos, whole_div k n pos))

module _ (segment : ℕ) (buf : Bytes) (w : Wire) (b : Batch) (pos : 0 < segment) where
  pub counting_lem :
      (w' : Wire) (r : GsoSend) (new : List (Bytes × ℕ))
      → w'.sent ≡ w.sent ++ new
      → is_coalesced (length buf) segment ≡ true
      → SentUpTo segment 0 buf (on_wire new) r
      → Accounted
          (chunks segment buf)
          (chunks segment (left_after buf r))
          w
          b
          w'
          (counting segment buf b r)
  unfolding chunks segments
  counting_lem w' sent_all new log burst same =
      let number : segments (length buf) segment ≡ length (on_wire new) =
        rw (burst, same) (sym (length-chunks segment buf pos)) in
      let size : length (concat (on_wire new)) ≡ length buf =
        rw (same, concat-chunks segment buf pos) in
      record {
        new = new;
        handled = on_wire new;
        log = log;
        split = sym same ∙ sym (append-nil (on_wire new));
        whole = Kept-refl (on_wire new);
        counted = omega (arith, number);
        all_counted = omega (arith, number);
        bytes_counted = omega (arith, size);
      }
  counting_lem w' stuck new log burst upto = elim upto [ ]
  counting_lem w' (stopped from e) new log burst (k, at, lt, same) =
      let offset : from ≡ k * segment = omega arith in
      let front : length (take (k * segment) buf) ≡ k * segment =
        omega (arith, length-take (k * segment) buf, lt) in
      let number : length (on_wire new) ≡ k =
        rw (same, length-chunks segment (take (k * segment) buf) pos, front)
          (whole_div k segment pos) in
      let size : length (concat (on_wire new)) ≡ from =
        rw (same, concat-chunks segment (take (k * segment) buf) pos, front) (sym offset) in
      let quotient : from / segment ≡ k = rw offset (mul-div_cancel k pos) in
      record {
        new = new;
        handled = on_wire new;
        log = log;
        split = rw (offset, same) (chunks-split k segment (k * segment) buf pos refl);
        whole = Kept-refl (on_wire new);
        counted = omega (arith, number, quotient);
        all_counted = omega (arith, number, quotient);
        bytes_counted = omega (arith, size);
      }
