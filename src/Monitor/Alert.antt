-- ===== src/Monitor/Alert.antt =====
-- When the monitor alerts in the course of an outage: `record_down` and `record_up`.

use rfw.Text.{Text}
use rfw.Base.{
  All, List, Option, [], ap, append_assoc, arith, false, none, refl, some, sym, true, ℕ, ◌++◌, ◌+◌,
  ◌-◌, ◌<◌, ◌∙◌, ◌∷◌, ◌≡◌, ◌≤◌,
}
use rfw.Monitor.{Target, Watch, record_down, record_up}
use rfw.Notify.Event.{Event, target_recovered, target_unreachable}
use rfw.Net.{SocketAddr}

record_down_first :
    (t : Target) (error : Text) (threshold now : ℕ) (w : Watch)
    → w.down ≡ none
    → 0 < threshold
    → ((record_down t error threshold now w).1 ≡ [])
      × ((record_down t error threshold now w).0.down
          ≡ some (record { since = now; alerted = false }))
unfolding record_down
record_down_first t error threshold now w e pos = rw e (ground arith)

record_down_wait :
    (t : Target) (error : Text) (threshold since now : ℕ) (w : Watch)
    → w.down ≡ some (record { since = since; alerted = false })
    → now < since + threshold
    → 0 < threshold
    → ((record_down t error threshold now w).1 ≡ [])
      × ((record_down t error threshold now w).0.down
          ≡ some (record { since = since; alerted = false }))
unfolding record_down
record_down_wait t error threshold since now w e lt pos = rw e (ground arith)

record_down_alert :
    (t : Target) (error : Text) (threshold since now : ℕ) (w : Watch)
    → w.down ≡ some (record { since = since; alerted = false })
    → threshold ≤ now - since
    → ((record_down t error threshold now w).1
        ≡ target_unreachable t.label t.target (now - since) error ∷ [])
      × ((record_down t error threshold now w).0.down
          ≡ some (record { since = since; alerted = true }))
unfolding record_down
record_down_alert t error threshold since now w e le = rw e (ground arith)

record_down_again :
    (t : Target) (error : Text) (threshold since now : ℕ) (w : Watch)
    → w.down ≡ some (record { since = since; alerted = true })
    → ((record_down t error threshold now w).1 ≡ [])
      × ((record_down t error threshold now w).0.down
          ≡ some (record { since = since; alerted = true }))
unfolding record_down
record_down_again t error threshold since now w e = rw e (ground arith)

record_up_alerted :
    (t : Target) (address : Option SocketAddr) (now since : ℕ) (w : Watch)
    → w.down ≡ some (record { since = since; alerted = true })
    → (record_up t address now w).1 ≡ target_recovered t.label t.target (now - since) address ∷ []
unfolding record_up
record_up_alerted t address now since w e = rw e

record_up_quiet :
    (t : Target) (address : Option SocketAddr) (now since : ℕ) (w : Watch)
    → w.down ≡ some (record { since = since; alerted = false })
    → (record_up t address now w).1 ≡ []
unfolding record_up
record_up_quiet t address now since w e = rw e

-- The target fails its probes at the given times.
pub failing : Target → Text → ℕ → List ℕ → Watch → Watch × List Event
failing t error threshold [] w = (w, [])
failing t error threshold (now ∷ times) w =
    let (w', es) = record_down t error threshold now w in
    let (w'', fs) = failing t error threshold times w' in (w'', es ++ fs)

failing-append :
    (t : Target) (error : Text) (threshold : ℕ) (xs ys : List ℕ) (w : Watch)
    → let p = failing t error threshold xs w in
      let q = failing t error threshold ys p.0 in
      failing t error threshold (xs ++ ys) w ≡ (q.0, p.1 ++ q.1)
unfolding failing
failing-append t error threshold [] ys w = refl
failing-append t error threshold (x ∷ xs) ys w =
    let p = record_down t error threshold x w in
    let q = failing t error threshold xs p.0 in
    let r = failing t error threshold ys q.0 in
    rw (failing-append t error threshold xs ys p.0)
      (ap (λ l. (r.0, l)) (sym (append_assoc p.1 q.1 r.1)))

failing_wait :
    (t : Target) (error : Text) (threshold since : ℕ) (times : List ℕ) (w : Watch)
    → w.down ≡ some (record { since = since; alerted = false })
    → All (λ now. now < since + threshold) times
    → 0 < threshold
    → ((failing t error threshold times w).1 ≡ [])
      × ((failing t error threshold times w).0.down
          ≡ some (record { since = since; alerted = false }))
unfolding failing
failing_wait t error threshold since [] w e inside pos = (refl, e)
failing_wait t error threshold since (now ∷ times) w e inside pos =
    let p = record_down t error threshold now w in
    let (quiet, kept) = record_down_wait t error threshold since now w e inside.0 pos in
    let (quiet', kept') = failing_wait t error threshold since times p.0 kept inside.1 pos in
    (rw (quiet, quiet'), kept')

failing_again :
    (t : Target) (error : Text) (threshold since : ℕ) (times : List ℕ) (w : Watch)
    → w.down ≡ some (record { since = since; alerted = true })
    → ((failing t error threshold times w).1 ≡ [])
      × ((failing t error threshold times w).0.down
          ≡ some (record { since = since; alerted = true }))
unfolding failing
failing_again t error threshold since [] w e = (refl, e)
failing_again t error threshold since (now ∷ times) w e =
    let p = record_down t error threshold now w in
    let (quiet, kept) = record_down_again t error threshold since now w e in
    let (quiet', kept') = failing_again t error threshold since times p.0 kept in
    (rw (quiet, quiet'), kept')

failing_outage :
    (t : Target) (error : Text) (threshold start late : ℕ) (before after : List ℕ) (w : Watch)
    → w.down ≡ none
    → 0 < threshold
    → All (λ now. now < start + threshold) before
    → start + threshold ≤ late
    → let p = failing t error threshold (start ∷ (before ++ late ∷ after)) w in
      (p.1 ≡ target_unreachable t.label t.target (late - start) error ∷ [])
      × (p.0.down ≡ some (record { since = start; alerted = true }))
unfolding failing
failing_outage t error threshold start late before after w e pos inside le =
    let p = record_down t error threshold start w in
    let q = failing t error threshold before p.0 in
    let r = record_down t error threshold late q.0 in
    let (quiet, opens) = record_down_first t error threshold start w e pos in
    let (quiet', kept) = failing_wait t error threshold start before p.0 opens inside pos in
    let (alert, down') = record_down_alert t error threshold start late q.0 kept (omega arith) in
    let (quiet'', kept') = failing_again t error threshold start after r.0 down' in
    let split = failing-append t error threshold before (late ∷ after) p.0 in
    (rw (split, quiet, quiet', alert, quiet''), ap (λ x. x.0.down) split ∙ kept')

-- An outage that outlasts the threshold is announced once: the first probe at least `threshold` after
-- the first failure announces how long the target is down, those before and those after it are
-- silent, and the next success announces the recovery with the length of the whole outage.
pub outage_announced_once :
    (t : Target) (error : Text) (threshold start late again : ℕ) (before after : List ℕ)
    (address : Option SocketAddr) (w : Watch)
    → w.down ≡ none
    → 0 < threshold
    → All (λ now. now < start + threshold) before
    → start + threshold ≤ late
    → let p = failing t error threshold (start ∷ (before ++ late ∷ after)) w in
      (p.1 ≡ target_unreachable t.label t.target (late - start) error ∷ [])
      × ((record_up t address again p.0).1
          ≡ target_recovered t.label t.target (again - start) address ∷ [])
outage_announced_once t error threshold start late again before after address w e pos inside le =
    let p = failing t error threshold (start ∷ (before ++ late ∷ after)) w in
    let (alert, down') =
      failing_outage t error threshold start late before after w e pos inside le in
    (alert, record_up_alerted t address again start p.0 down')

-- An outage that ends before the threshold is not announced, nor is its end.
pub short_outage_silent :
    (t : Target) (error : Text) (threshold start again : ℕ) (times : List ℕ)
    (address : Option SocketAddr) (w : Watch)
    → w.down ≡ none
    → 0 < threshold
    → All (λ now. now < start + threshold) times
    → let p = failing t error threshold (start ∷ times) w in
      (p.1 ≡ []) × ((record_up t address again p.0).1 ≡ [])
unfolding failing
short_outage_silent t error threshold start again times address w e pos inside =
    let p = record_down t error threshold start w in
    let (quiet, opens) = record_down_first t error threshold start w e pos in
    let (quiet', kept) = failing_wait t error threshold start times p.0 opens inside pos in
    let q = failing t error threshold times p.0 in
    (rw (quiet, quiet'), record_up_quiet t address again start q.0 kept)
