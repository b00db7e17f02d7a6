-- ===== src/Stats/Registry/Labels.antt =====
-- The labels of `StatsRegistry` in `src/stats.rs`, over `register_with_protocol` and `remove`.

use rfw.Text.{Text}
use mathlib.Core.List.{map-append}
use rfw.Base.{
  All, Bool-cases, Distinct, Distinct-push, List, Option-cases, [], ap, arith, beq_self,
  if◌then◌else◌, inl, inr, list_beq_iff, list_eq, map, nat_eq, none, refl, some, sym, ◌++◌, ◌==◌,
  ◌∙◌, ◌∷◌, ◌≡◌, ◌≢◌,
}
use rfw.Config.Forwarder.{Protocol, label, protocol_eq}
use rfw.Stats.{ForwarderStats, with_protocol}
use rfw.Stats.Registry.{StatsRegistry, find_label, register_with_protocol, registered, remove}

abbrev pub labels : StatsRegistry → List Text
labels = map (λ s. s.label)

find_label-none :
    (stats : StatsRegistry) (label : Text)
    → find_label stats label ≡ none
    → All (λ l. l ≢ label) (labels stats)
unfolding find_label
find_label-none [] label h = tt
find_label-none (s ∷ stats) label h =
    ground (arith, list_beq_iff s.label label, find_label-none stats label)

find_label-append :
    (stats : StatsRegistry) (s : ForwarderStats) (label : Text)
    → find_label (stats ++ s ∷ []) label ≡ (elim (find_label stats label) [
      | none ↦ if s.label == label then some s else none
      | some t ↦ some t
    ])
unfolding find_label
find_label-append [] s label = refl
find_label-append (t ∷ stats) s label = ground (arith, find_label-append stats s label)

found_label :
    (stats : StatsRegistry) (label : Text) (s : ForwarderStats)
    → find_label stats label ≡ some s
    → s.label ≡ label
unfolding find_label
found_label [] label s h = cc
found_label (t ∷ stats) label s h =
    ground (arith, list_beq_iff t.label label, found_label stats label s)

-- Registering keeps the labels distinct.
pub register_with_protocol-Distinct :
    (stats : StatsRegistry) (label : Text) (p : Protocol)
    → Distinct (labels stats)
    → Distinct (labels (register_with_protocol stats label p).0)
unfolding register_with_protocol with_protocol
register_with_protocol-Distinct stats label p d = elim (Option-cases (find_label stats label)) [
  | inr (s, e) ↦ rw (e, registered) d
  | inl e ↦
      rw
        (
          e,
          registered,
          map-append (λ (s : ForwarderStats). s.label) stats (with_protocol label p ∷ []),
        )
        (Distinct-push (labels stats) label d (find_label-none stats label e))
]

register_old :
    (stats : StatsRegistry) (l : Text) (p : Protocol) (s : ForwarderStats)
    → find_label stats l ≡ some s
    → register_with_protocol stats l p ≡ (stats, s)
unfolding register_with_protocol
register_old stats l p s e = rw (e, registered)

register_new :
    (stats : StatsRegistry) (l : Text) (p : Protocol)
    → find_label stats l ≡ none
    → register_with_protocol stats l p ≡ (stats ++ with_protocol l p ∷ [], with_protocol l p)
unfolding register_with_protocol
register_new stats l p e = rw (e, registered)

find_label-new :
    (stats : StatsRegistry) (l : Text) (p : Protocol) (other : Text)
    → find_label (stats ++ with_protocol l p ∷ []) other ≡ (elim (find_label stats other) [
      | none ↦ if l == other then some (with_protocol l p) else none
      | some t ↦ some t
    ])
unfolding with_protocol
find_label-new stats l p other = find_label-append stats (with_protocol l p) other

-- Registering gives the entry of the label, an old one with its counters or a new one; it leaves the
-- entries of other labels, and a second registration of the label, with either protocol, changes
-- nothing and gives the same entry.
pub register_with_protocol_lem :
    (stats : StatsRegistry) (l : Text) (p : Protocol)
    → let r = register_with_protocol stats l p in
      ((other : Text)
        → find_label r.0 other ≡ (if l == other then some r.1 else find_label stats other))
      × ((q : Protocol) → register_with_protocol r.0 l q ≡ r)
register_with_protocol_lem stats l p = elim (Option-cases (find_label stats l)) [
  | inr (s, e) ↦ rw (register_old stats l p s e) (
    (λ other. elim (Bool-cases (l == other)) [
      | inl t ↦ rw t (ap (find_label stats) (sym ((list_beq_iff l other).0 t)) ∙ e)
      | inr f ↦ rw f
    ]),
    λ q. register_old stats l q s e,
  )
  | inl e ↦
      let new = with_protocol l p in
      let there : find_label (stats ++ new ∷ []) l ≡ some new =
        ground (arith, find_label-new stats l p l, beq_self l) in
      rw (register_new stats l p e) (
        (λ other. elim (Bool-cases (l == other)) [
          | inl t ↦
              rw t (ap (find_label (stats ++ new ∷ [])) (sym ((list_beq_iff l other).0 t)) ∙ there)
          | inr f ↦ rw f (ground (arith, find_label-new stats l p other, f))
        ]),
        λ q. register_old (stats ++ new ∷ []) l q new there,
      )
]

-- Removing a label leaves exactly the entries of the other labels.
pub find_label-remove :
    (stats : StatsRegistry) (label other : Text)
    → find_label (remove stats label) other
      ≡ (if label == other then none else find_label stats other)
unfolding find_label remove
find_label-remove [] label other = ground arith
find_label-remove (s ∷ stats) label other = ground (
  arith,
  list_beq_iff s.label label,
  list_beq_iff s.label other,
  list_beq_iff label other,
  find_label-remove stats label other,
)
