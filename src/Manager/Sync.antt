-- ===== src/Manager/Sync.antt =====
-- The running forwarders after `sync` and after a reload.

use rfw.Text.{Text}
use rfw.Base.{
  Bool, Bool-cases, List, Option, Option-cases, [], ap, arith, beq_self, contains, false,
  if◌then◌else◌, inl, inr, keep_if, list_beq_iff, list_eq, map, nat_eq, ne→beq, none, not, refl,
  some, subst, true, ◌&&◌, ◌==◌, ◌||◌, ◌∙◌, ◌∷◌, ◌≡◌,
}
use rfw.Manager.{
  ForwarderHandle, ForwarderManager, handle_of, running_labels, start_missing, start_one, stop_each,
  stop_handle, stop_one, sync,
}
use rfw.Config.Forwarder.{ForwarderConfig, label, protocol_eq}

abbrev pub is_some {ℓ} : {A : Type ℓ} → Option A → Bool
is_some none = false
is_some (some a) = true

-- The handle under a label.
abbrev pub running : ForwarderManager → Text → Option ForwarderHandle
running m l = handle_of m.forwarders l

pub contains-running_labels :
    (hs : List (Text × ForwarderHandle)) (l : Text)
    → contains (map (λ h. h.0) hs) l ≡ is_some (handle_of hs l)
unfolding handle_of
contains-running_labels [] l = refl
contains-running_labels ((k, h) ∷ hs) l = ground (arith, contains-running_labels hs l)

pub handle_of-keep_if :
    (hs : List (Text × ForwarderHandle)) (l k : Text)
    → handle_of (keep_if (λ e. not (e.0 == l)) hs) k ≡ (if l == k then none else handle_of hs k)
unfolding handle_of
handle_of-keep_if [] l k = ground arith
handle_of-keep_if ((j, h) ∷ hs) l k =
    ground (arith, list_beq_iff j l, list_beq_iff j k, list_beq_iff l k, handle_of-keep_if hs l k)

pub running-stop_one :
    (l k : Text) (m : ForwarderManager)
    → running (stop_one l m) k ≡ (if l == k then none else running m k)
unfolding stop_one
running-stop_one l k m = elim (Option-cases (running m l)) [
  | inl e ↦ rw (e, stop_handle) (ground (arith, e, list_beq_iff l k))
  | inr (h, e) ↦ rw (e, stop_handle) (handle_of-keep_if m.forwarders l k)
]

running-stop_each :
    (ls : List Text) (k : Text) (m : ForwarderManager)
    → running (stop_each ls m) k ≡ (if contains ls k then none else running m k)
unfolding stop_each
running-stop_each [] k m = refl
running-stop_each (l ∷ ls) k m =
    ground (arith, running-stop_each ls k (stop_one l m), running-stop_one l k m)

pub contains-keep_if :
    (p : Text → Bool) (ls : List Text) (k : Text)
    → contains (keep_if p ls) k ≡ (contains ls k && p k)
contains-keep_if p [] k = refl
contains-keep_if p (l ∷ ls) k = elim (Bool-cases (l == k)) [
  | inl t ↦
      let e = (list_beq_iff l k).0 t in
      subst (λ x. contains (keep_if p (l ∷ ls)) x ≡ (contains (l ∷ ls) x && p x)) e
        (ground (arith, beq_self l, contains-keep_if p ls l))
  | inr f ↦ ground (arith, f, contains-keep_if p ls k)
]

-- The handle that `start_one` makes.
abbrev started_handle : ForwarderConfig → ForwarderManager → ForwarderHandle
started_handle cfg m = record { token = m.next_token; serves = cfg }

pub running-start_one :
    (cfg : ForwarderConfig) (m : ForwarderManager) (k : Text)
    → running (start_one cfg m) k ≡ (
        if is_some (running m k)
        then running m k
        else if label cfg == k
        then some (started_handle cfg m)
        else none)
unfolding start_one handle_of
running-start_one cfg m k =
    ground (arith, contains-running_labels m.forwarders (label cfg), list_beq_iff (label cfg) k)

start_one_other :
    (cfg : ForwarderConfig) (m : ForwarderManager) (k : Text)
    → (label cfg == k) ≡ false
    → running (start_one cfg m) k ≡ running m k
start_one_other cfg m k h = elim (Option-cases (running m k)) [
  | inl e ↦ running-start_one cfg m k ∙ rw (e, h)
  | inr (o, e) ↦ running-start_one cfg m k ∙ rw e
]

pub is_some-start_one :
    (cfg : ForwarderConfig) (m : ForwarderManager) (k : Text)
    → is_some (running (start_one cfg m) k) ≡ (is_some (running m k) || (label cfg == k))
is_some-start_one cfg m k = elim (Option-cases (running m k)) [
  | inl e ↦ elim (Bool-cases (label cfg == k)) [
    | inl t ↦ rw (running-start_one cfg m k, e, t)
    | inr f ↦ rw (running-start_one cfg m k, e, f)
  ]
  | inr (o, e) ↦ rw (running-start_one cfg m k, e)
]

-- A label that is not in a list is not one that is.
apart :
    (ls : List Text) (l k : Text) → contains ls l ≡ false → contains ls k ≡ true → (l == k) ≡ false
apart ls l k g h = ne→beq l k (λ e. absurd (ground (arith, ap (contains ls) e, h, g)))

pub start_missing_skip :
    (current : List Text) (cfg : ForwarderConfig) (configs : List ForwarderConfig)
    (m : ForwarderManager)
    → contains current (label cfg) ≡ true
    → start_missing current (cfg ∷ configs) m ≡ start_missing current configs m
unfolding start_missing
start_missing_skip current cfg configs m h = ap (start_missing current configs) (rw h)

pub start_missing_start :
    (current : List Text) (cfg : ForwarderConfig) (configs : List ForwarderConfig)
    (m : ForwarderManager)
    → contains current (label cfg) ≡ false
    → start_missing current (cfg ∷ configs) m ≡ start_missing current configs (start_one cfg m)
unfolding start_missing
start_missing_start current cfg configs m h = ap (start_missing current configs) (rw h)

-- A label that `sync` found running keeps its handle in the second loop.
start_missing_old :
    (current : List Text) (configs : List ForwarderConfig) (m : ForwarderManager) (k : Text)
    → contains current k ≡ true
    → running (start_missing current configs m) k ≡ running m k
unfolding start_missing
start_missing_old current [] m k h = refl
start_missing_old current (cfg ∷ configs) m k h = elim (Bool-cases (contains current (label cfg))) [
  | inl t ↦
      ap (λ n. running n k) (start_missing_skip current cfg configs m t)
      ∙ start_missing_old current configs m k h
  | inr f ↦
      ap (λ n. running n k) (start_missing_start current cfg configs m f)
      ∙ start_missing_old current configs (start_one cfg m) k h
      ∙ start_one_other cfg m k (apart current (label cfg) k f h)
]

is_some-start_missing :
    (current : List Text) (configs : List ForwarderConfig) (m : ForwarderManager) (k : Text)
    → contains current k ≡ false
    → is_some (running (start_missing current configs m) k)
      ≡ (is_some (running m k) || contains (map label configs) k)
unfolding start_missing
is_some-start_missing current [] m k h = ground arith
is_some-start_missing current (cfg ∷ configs) m k h =
    elim (Bool-cases (contains current (label cfg))) [
      | inl t ↦
          let differ =
            ne→beq (label cfg) k (λ e. absurd (ground (arith, ap (contains current) e))) in
          ap (λ n. is_some (running n k)) (start_missing_skip current cfg configs m t)
          ∙ is_some-start_missing current configs m k h
          ∙ rw differ
      | inr f ↦
          ap (λ n. is_some (running n k)) (start_missing_start current cfg configs m f)
          ∙ is_some-start_missing current configs (start_one cfg m) k h
          ∙ ground (arith, is_some-start_one cfg m k)
    ]

-- After a sync exactly the labels of the new list run.
pub contains-sync :
    (configs : List ForwarderConfig) (m : ForwarderManager) (k : Text)
    → contains (running_labels (sync configs m)) k ≡ contains (map label configs) k
unfolding sync
contains-sync configs m k =
    let current = running_labels m in
    let gone = keep_if (λ l. not (contains (map label configs) l)) current in
    let stopped = stop_each gone m in
    let after = contains-running_labels (start_missing current configs stopped).forwarders k in
    let removed = contains-keep_if (λ l. not (contains (map label configs) l)) current k in
    let before = contains-running_labels m.forwarders k in
    let stop = running-stop_each gone k m in
    elim (Bool-cases (contains current k)) [
      | inl t ↦
          after
          ∙ ap is_some (start_missing_old current configs stopped k t ∙ stop)
          ∙ ground (arith, removed, before, t)
      | inr f ↦
          after
          ∙ is_some-start_missing current configs stopped k f
          ∙ ap (λ o. is_some o || contains (map label configs) k) stop
          ∙ ground (arith, removed, before, f)
    ]

-- A forwarder that ran and whose label is in the new list keeps running with the same handle.
pub running-sync_kept :
    (configs : List ForwarderConfig) (m : ForwarderManager) (k : Text)
    → contains (running_labels m) k ≡ true
    → contains (map label configs) k ≡ true
    → running (sync configs m) k ≡ running m k
unfolding sync
running-sync_kept configs m k h d =
    let current = running_labels m in
    let gone = keep_if (λ l. not (contains (map label configs) l)) current in
    let removed = contains-keep_if (λ l. not (contains (map label configs) l)) current k in
    start_missing_old current configs (stop_each gone m) k h
    ∙ running-stop_each gone k m
    ∙ ground (arith, removed, h, d)
