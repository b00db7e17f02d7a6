-- ===== src/Notify/Throttle/Windows.antt =====
-- What the throttle lets through in the course of time.

use rfw.Text.{Text}
use rfw.Base.{
  All, Bool-cases, List, Option-cases, [], ap, arith, beq_self, if◌then◌else◌, inl, inr, length,
  le→ltb, list_beq_iff, list_eq, ltb, lt→ltb, map, nat_eq, ne→beq, none, refl, some, true, ℕ, ◌++◌,
  ◌+◌, ◌-◌, ◌<◌, ◌==◌, ◌∙◌, ◌∷◌, ◌≡◌, ◌≢◌, ◌≤◌,
}
use rfw.Notify.Throttle.{
  Admit, Throttle, ThrottleEntry, admit, admit_entry, get, put, send, suppress,
}

get-put :
    (key other : Text) (e : ThrottleEntry) (t : Throttle)
    → get other (put key e t) ≡ (if key == other then some e else get other t)
unfolding get put
get-put key other e [] = refl
get-put key other e ((k, d) ∷ t) =
    ground (
      arith,
      list_beq_iff k key,
      list_beq_iff k other,
      list_beq_iff key other,
      get-put key other e t,
    )

get-put_self : (key : Text) (e : ThrottleEntry) (t : Throttle) → get key (put key e t) ≡ some e
get-put_self key e t = get-put key key e t ∙ rw (beq_self key)

-- A call leaves the entries of other keys alone.
pub get-admit :
    (key other : Text) (window now : ℕ) (t : Throttle)
    → key ≢ other
    → get other (admit key window now t).0 ≡ get other t
unfolding admit
get-admit key other window now t ne =
    let differ = ne→beq key other ne in
    elim (Option-cases (get key t)) [
      | inl h ↦ rw (h, admit_entry, get-put key other _ t, differ)
      | inr (e, h) ↦ elim (Bool-cases (ltb (now - e.last_sent) window)) [
        | inl q ↦ rw (h, admit_entry, q, get-put key other _ t, differ)
        | inr q ↦ rw (h, admit_entry, q, get-put key other _ t, differ)
      ]
    ]

admit_within :
    (key : Text) (window now : ℕ) (t : Throttle) (e : ThrottleEntry)
    → get key t ≡ some e
    → now < e.last_sent + window
    → 0 < window
    → ((admit key window now t).1 ≡ suppress)
      × (get key (admit key window now t).0 ≡ some (record e { suppressed = e.suppressed + 1 }))
unfolding admit
admit_within key window now t e h lt pos =
    let q : ltb (now - e.last_sent) window ≡ true = lt→ltb _ _ (omega arith) in
    (rw (h, admit_entry, q), rw (h, admit_entry, q) (get-put_self key _ t))

admit_after :
    (key : Text) (window now : ℕ) (t : Throttle) (e : ThrottleEntry)
    → get key t ≡ some e
    → window ≤ now - e.last_sent
    → ((admit key window now t).1 ≡ send e.suppressed)
      × (get key (admit key window now t).0 ≡ some (record { last_sent = now; suppressed = 0 }))
unfolding admit
admit_after key window now t e h le =
    let q = le→ltb (now - e.last_sent) window le in
    (rw (h, admit_entry, q), rw (h, admit_entry, q) (get-put_self key _ t))

-- The calls for one key at the given times, and their outcomes.
pub admit_all : Text → ℕ → List ℕ → Throttle → Throttle × List Admit
admit_all key window [] t = (t, [])
admit_all key window (now ∷ times) t =
    let (t', outcome) = admit key window now t in
    let (t'', outcomes) = admit_all key window times t' in (t'', outcome ∷ outcomes)

suppressed_inside :
    (key : Text) (window : ℕ) (times : List ℕ) (t : Throttle) (e : ThrottleEntry)
    → get key t ≡ some e
    → All (λ now. now < e.last_sent + window) times
    → 0 < window
    → ((admit_all key window times t).1 ≡ map (λ now. suppress) times)
      × (get key (admit_all key window times t).0
          ≡ some (record e { suppressed = e.suppressed + length times }))
unfolding admit_all
suppressed_inside key window [] t e h w pos =
    (refl, h ∙ ap (λ n. some (record e { suppressed = n })) (omega arith))
suppressed_inside key window (now ∷ times) t e h w pos =
    let (outcome, entry) = admit_within key window now t e h w.0 pos in
    let (outcomes, last) =
      suppressed_inside key window times (admit key window now t).0
        (record e { suppressed = e.suppressed + 1 }) entry w.1 pos in
    (cc (outcome, outcomes), last ∙ ap (λ n. some (record e { suppressed = n })) (omega arith))

admit_all-append :
    (key : Text) (window : ℕ) (xs ys : List ℕ) (t : Throttle)
    → (admit_all key window (xs ++ ys) t).1
      ≡ (admit_all key window xs t).1 ++ (admit_all key window ys (admit_all key window xs t).0).1
unfolding admit_all
admit_all-append key window [] ys t = refl
admit_all-append key window (x ∷ xs) ys t =
    ap (λ l. (admit key window x t).1 ∷ l)
      (admit_all-append key window xs ys (admit key window x t).0)

admit_first :
    (key : Text) (window now : ℕ) (t : Throttle)
    → get key t ≡ none
    → ((admit key window now t).1 ≡ send 0)
      × (get key (admit key window now t).0 ≡ some (record { last_sent = now; suppressed = 0 }))
unfolding admit
admit_first key window now t h = (rw (h, admit_entry), rw (h, admit_entry) (get-put_self key _ t))

-- The first event of a key is sent, those inside the window behind it are held back, and the first
-- one after the window is sent with the number that was held back.
pub admit_all_burst :
    (key : Text) (window start later : ℕ) (times : List ℕ) (t : Throttle)
    → get key t ≡ none
    → 0 < window
    → All (λ now. now < start + window) times
    → start + window ≤ later
    → (admit_all key window (start ∷ (times ++ later ∷ [])) t).1
      ≡ send 0 ∷ (map (λ now. suppress) times ++ send (length times) ∷ [])
unfolding admit_all
admit_all_burst key window start later times t new pos inside le =
    let t1 = (admit key window start t).0 in
    let (sent, entry) = admit_first key window start t new in
    let (held, last) =
      suppressed_inside key window times t1 (record { last_sent = start; suppressed = 0 }) entry
        inside pos in
    let (sent', _) =
      admit_after key window later (admit_all key window times t1).0 _ last (omega arith) in
    ap (λ o. o ∷ (admit_all key window (times ++ later ∷ []) t1).1) sent
    ∙ ap (λ l. send 0 ∷ l)
        (admit_all-append key window times (later ∷ []) t1
          ∙ ap (λ l. l ++ (admit key window later (admit_all key window times t1).0).1 ∷ []) held
          ∙ ap (λ o. map (λ now. suppress) times ++ o ∷ []) (sent' ∙ ap send (omega arith)))
