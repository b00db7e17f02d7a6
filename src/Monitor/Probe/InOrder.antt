-- ===== src/Monitor/Probe/InOrder.antt =====
-- The order of the reports.

use rfw.Base.{
  All, List, Option, [], ap, arith, false, le→ltb, ltb, lt→ltb, map, refl, true, ℕ, ◌++◌, ◌+◌, ◌<◌,
  ◌∙◌, ◌∷◌, ◌≡◌,
}
use rfw.Notify.Event.{ProbeReport}
use rfw.Monitor.Probe.{collected, insert_by_key, probe_all, sort_by_key}

-- Any order in which the tasks of a set can end.
pub data AnyOrder : List (ℕ × ProbeReport) → List (ℕ × ProbeReport) → Type 0 where
  none_left : AnyOrder [] []
  next_ended :
      (before : List (ℕ × ProbeReport)) (r : ℕ × ProbeReport) (after ended : List (ℕ × ProbeReport))
      → AnyOrder (before ++ after) ended
      → AnyOrder (before ++ r ∷ after) (r ∷ ended)

abbrev pub numbered : ℕ → List ProbeReport → List (ℕ × ProbeReport)
numbered i [] = []
numbered i (r ∷ reports) = (i, r) ∷ numbered (i + 1) reports

abbrev Above : ℕ → List (ℕ × ProbeReport) → Type 0
Above i = All (λ r. i < r.0)

abbrev Ascending : List (ℕ × ProbeReport) → Type 0
Ascending [] = Unit
Ascending (r ∷ l) = Above r.0 l × Ascending l

Above-remove :
    (i : ℕ) (before : List (ℕ × ProbeReport)) (r : ℕ × ProbeReport) (after : List (ℕ × ProbeReport))
    → Above i (before ++ r ∷ after)
    → (i < r.0) × Above i (before ++ after)
Above-remove i [] r after h = h
Above-remove i (b ∷ before) r after (p, h) =
    let (q, rest) = Above-remove i before r after h in (q, (p, rest))

Ascending-remove :
    (before : List (ℕ × ProbeReport)) (r : ℕ × ProbeReport) (after : List (ℕ × ProbeReport))
    → Ascending (before ++ r ∷ after)
    → Ascending (before ++ after)
Ascending-remove [] r after h = h.1
Ascending-remove (b ∷ before) r after (p, h) =
    ((Above-remove b.0 before r after p).1, Ascending-remove before r after h)

insert_by_key-middle :
    (before : List (ℕ × ProbeReport)) (r : ℕ × ProbeReport) (after : List (ℕ × ProbeReport))
    → Ascending (before ++ r ∷ after)
    → insert_by_key r (before ++ after) ≡ before ++ r ∷ after
unfolding insert_by_key
insert_by_key-middle [] r [] h = refl
insert_by_key-middle [] r (a ∷ after) ((low, _), _) =
    let e : ltb a.0 r.0 ≡ false = le→ltb a.0 r.0 (omega arith) in rw e refl
insert_by_key-middle (b ∷ before) r after (p, h) =
    let low = (Above-remove b.0 before r after p).0 in
    let e : ltb b.0 r.0 ≡ true = lt→ltb b.0 r.0 low in
    rw e (ap (λ l. b ∷ l) (insert_by_key-middle before r after h))

sort_by_key-AnyOrder :
    (tasks ended : List (ℕ × ProbeReport))
    → Ascending tasks
    → AnyOrder tasks ended
    → sort_by_key ended ≡ tasks
unfolding sort_by_key
sort_by_key-AnyOrder _ _ h none_left = refl
sort_by_key-AnyOrder _ _ h (next_ended before r after ended order) =
    ap (insert_by_key r)
      (sort_by_key-AnyOrder (before ++ after) ended (Ascending-remove before r after h) order)
    ∙ insert_by_key-middle before r after h

numbered-Above : (i j : ℕ) (reports : List ProbeReport) → i < j → Above i (numbered j reports)
numbered-Above i j [] h = tt
numbered-Above i j (r ∷ reports) h = (h, numbered-Above i (j + 1) reports (omega arith))

numbered-Ascending : (i : ℕ) (reports : List ProbeReport) → Ascending (numbered i reports)
numbered-Ascending i [] = tt
numbered-Ascending i (r ∷ reports) =
    (numbered-Above i (i + 1) reports (omega arith), numbered-Ascending (i + 1) reports)

map-numbered : (i : ℕ) (reports : List ProbeReport) → map (λ r. r.1) (numbered i reports) ≡ reports
map-numbered i [] = refl
map-numbered i (r ∷ reports) = ap (λ l. r ∷ l) (map-numbered (i + 1) reports)

-- When the tasks of all forwarders give their reports, in whatever order they end, the reports are
-- presented in the order of the configuration.
pub probe_all_lem :
    (reports : List ProbeReport) (joined : List (Option (ℕ × ProbeReport)))
    → AnyOrder (numbered 0 reports) (collected joined)
    → probe_all joined ≡ reports
unfolding probe_all
probe_all_lem reports joined order =
    ap (map (λ r. r.1)) (
      sort_by_key-AnyOrder (numbered 0 reports) (collected joined) (numbered-Ascending 0 reports)
        order)
    ∙ map-numbered 0 reports
