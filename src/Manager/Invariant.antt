-- ===== src/Manager/Invariant.antt =====
-- What holds of the manager between its operations.

use rfw.Text.{Text}
use rfw.Base.{
  All, All-imp, Bool, Bool-cases, Distinct, List, Option-cases, [], ap, arith, contains, false,
  if◌then◌else◌, inl, inr, keep_if, list_beq_iff, list_eq, map, nat_eq, none, not, refl, subst, sym,
  ◌<◌, ◌==◌, ◌||◌, ◌∙◌, ◌∷◌, ◌≡◌, ◌≢◌,
}
use rfw.Manager.{
  ForwarderHandle, ForwarderManager, handle_of, manager, remove_each, running_labels, shutdown_all,
  start_missing, start_new, start_one, stop_each, stop_handle, stop_one, sync,
}
use rfw.Manager.Sync.{
  contains-running_labels, handle_of-keep_if, is_some, running, start_missing_skip,
  start_missing_start,
}
use rfw.Stats.Registry.{StatsRegistry, find_label, register_with_protocol, remove}
use rfw.Config.Forwarder.{ForwarderConfig, Protocol, label, protocol_eq}
use rfw.Config.Settings.{Settings}
use rfw.Stats.Registry.Labels.{find_label-remove, register_with_protocol_lem}

-- Each forwarder runs under the label of the configuration that it serves, with a token that was
-- given out.
abbrev pub IsServing : ForwarderManager → Type 0
IsServing m = All (λ e. (label e.1.serves ≡ e.0) × (e.1.token < m.next_token)) m.forwarders

-- Statistics are kept for exactly the labels that run.
abbrev pub IsTracked : ForwarderManager → Type 0
IsTracked m = (k : Text) → is_some (find_label m.stats_registry k) ≡ is_some (running m k)

abbrev pub IsManager : ForwarderManager → Type 0
IsManager m = IsServing m × IsTracked m × Distinct (running_labels m)

-- A new manager runs nothing.
pub manager-IsManager : (s : Settings) → IsManager (manager s)
unfolding handle_of find_label
manager-IsManager s = (tt, (λ k. refl), tt)

All-keep_if {ℓ κ} :
    {A : Type ℓ} (P : A → Type κ) (p : A → Bool) (xs : List A) → All P xs → All P (keep_if p xs)
All-keep_if P p [] h = tt
All-keep_if P p (x ∷ xs) h = elim (Bool-cases (p x)) [
  | inl t ↦ rw t (h.0, All-keep_if P p xs h.1)
  | inr f ↦ rw f (All-keep_if P p xs h.1)
]

-- A list that lacks a label has no entry that carries it.
lacking :
    (hs : List (Text × ForwarderHandle)) (l : Text)
    → contains (map (λ h. h.0) hs) l ≡ false
    → All (λ k. l ≢ k) (map (λ h. h.0) hs)
lacking [] l h = tt
lacking ((k, e) ∷ hs) l h = (ground (arith, list_beq_iff k l, h), lacking hs l (ground (arith, h)))

fresh_kept :
    (q : Text → Bool) (l : Text) (hs : List (Text × ForwarderHandle))
    → All (λ k. l ≢ k) (map (λ h. h.0) hs)
    → All (λ k. l ≢ k) (map (λ h. h.0) (keep_if (λ e. q e.0) hs))
fresh_kept q l [] h = tt
fresh_kept q l ((k, e) ∷ hs) h = elim (Bool-cases (q k)) [
  | inl t ↦ rw t (h.0, fresh_kept q l hs h.1)
  | inr f ↦ rw f (fresh_kept q l hs h.1)
]

Distinct-kept :
    (q : Text → Bool) (hs : List (Text × ForwarderHandle))
    → Distinct (map (λ h. h.0) hs)
    → Distinct (map (λ h. h.0) (keep_if (λ e. q e.0) hs))
Distinct-kept q [] d = tt
Distinct-kept q ((k, e) ∷ hs) d = elim (Bool-cases (q k)) [
  | inl t ↦ rw t (fresh_kept q k hs d.0, Distinct-kept q hs d.1)
  | inr f ↦ rw f (Distinct-kept q hs d.1)
]

-- The second registration of `start_one` finds the entry of the first.
find_label-twice :
    (stats : StatsRegistry) (l : Text) (p : Protocol) (k : Text)
    → is_some (find_label (register_with_protocol (register_with_protocol stats l p).0 l p).0 k)
      ≡ ((l == k) || is_some (find_label stats k))
find_label-twice stats l p k =
    let (found, again) = register_with_protocol_lem stats l p in
    ap (λ r. is_some (find_label r.0 k)) (again p)
    ∙ ap is_some (found k)
    ∙ elim (Bool-cases (l == k)) [ inl t ↦ rw t | inr f ↦ rw f ]

stop_one-IsManager : (l : Text) (m : ForwarderManager) → IsManager m → IsManager (stop_one l m)
unfolding stop_one
stop_one-IsManager l m (serving, tracked, distinct) = elim (Option-cases (running m l)) [
  | inl e ↦ rw (e, stop_handle) (serving, tracked, distinct)
  | inr (h, e) ↦
      rw (e, stop_handle)
        (
          All-keep_if _ _ m.forwarders serving,
          (λ k. ground (
            arith,
            find_label-remove m.stats_registry l k,
            handle_of-keep_if m.forwarders l k,
            tracked k,
          )),
          Distinct-kept (λ x. not (x == l)) m.forwarders distinct,
        )
]

pub start_one-IsManager :
    (cfg : ForwarderConfig) (m : ForwarderManager) → IsManager m → IsManager (start_one cfg m)
unfolding start_one handle_of
start_one-IsManager cfg m (serving, tracked, distinct) =
    elim (Bool-cases (contains (running_labels m) (label cfg))) [
      | inl t ↦ rw t (serving, tracked, distinct)
      | inr f ↦
          rw (f, start_new)
            (
              (
                (refl, omega arith),
                All-imp _ _ m.forwarders (λ e h. (h.0, omega (arith, h.1))) serving,
              ),
              (λ k.
                  find_label-twice m.stats_registry (label cfg) cfg.protocol k
                  ∙ ground (arith, tracked k)),
              (lacking m.forwarders (label cfg) f, distinct),
            )
    ]

stop_each-IsManager :
    (ls : List Text) (m : ForwarderManager) → IsManager m → IsManager (stop_each ls m)
unfolding stop_each
stop_each-IsManager [] m h = h
stop_each-IsManager (l ∷ ls) m h = stop_each-IsManager ls (stop_one l m) (stop_one-IsManager l m h)

start_missing-IsManager :
    (current : List Text) (configs : List ForwarderConfig) (m : ForwarderManager)
    → IsManager m
    → IsManager (start_missing current configs m)
unfolding start_missing
start_missing-IsManager current [] m h = h
start_missing-IsManager current (cfg ∷ configs) m h =
    elim (Bool-cases (contains current (label cfg))) [
      | inl t ↦
          subst IsManager (sym (start_missing_skip current cfg configs m t))
            (start_missing-IsManager current configs m h)
      | inr f ↦
          subst IsManager (sym (start_missing_start current cfg configs m f)) (
            start_missing-IsManager current configs (start_one cfg m) (start_one-IsManager cfg m h))
    ]

-- A sync keeps the invariant: each forwarder serves the configuration of its label, statistics are
-- kept for exactly the labels that run, and no label runs twice.
pub sync-IsManager :
    (configs : List ForwarderConfig) (m : ForwarderManager)
    → IsManager m
    → IsManager (sync configs m)
unfolding sync
sync-IsManager configs m h =
    let gone = keep_if (λ l. not (contains (map label configs) l)) (running_labels m) in
    start_missing-IsManager (running_labels m) configs (stop_each gone m)
      (stop_each-IsManager gone m h)

remove_each_lem :
    (ls : List Text) (stats : StatsRegistry) (k : Text)
    → find_label (remove_each ls stats) k ≡ (if contains ls k then none else find_label stats k)
unfolding remove_each
remove_each_lem [] stats k = refl
remove_each_lem (l ∷ ls) stats k =
    ground (arith, remove_each_lem ls (remove stats l) k, find_label-remove stats l k)

-- A shutdown leaves no forwarder and no statistics.
pub shutdown_all_lem :
    (m : ForwarderManager) (k : Text)
    → IsManager m
    → (running (shutdown_all m) k ≡ none) × (find_label (shutdown_all m).stats_registry k ≡ none)
unfolding shutdown_all handle_of
shutdown_all_lem m k (serving, tracked, distinct) = (
  refl,
  ground (
    arith,
    remove_each_lem (running_labels m) m.stats_registry k,
    contains-running_labels m.forwarders k,
    tracked k,
  ),
)
