-- ===== src/Metrics/Prometheus/Lines.antt =====
-- The lines of the body of `/metrics`.

use rfw.Base.{
  List, Option-cases, [], ap, append-nil, append_assoc, inl, inr, map, none, refl, some, sym, ◌++◌,
  ◌∙◌, ◌∷◌, ◌≡◌,
}
use rfw.Text.{Text}
use rfw.Stats.Registry.{StatsSnapshot}
use rfw.Metrics.Prometheus.{
  Family, bit, help_line, push_metric, push_metrics, push_samples, push_targets, push_udp,
  sample_line, target_name, type_line, udp_families,
}

abbrev pub unlines : List Text → Text
unlines [] = []
unlines (l ∷ ls) = l ++ 10 ∷ unlines ls

pub unlines-append : (xs ys : List Text) → unlines (xs ++ ys) ≡ unlines xs ++ unlines ys
unlines-append [] ys = refl
unlines-append (x ∷ xs) ys =
    ap (λ l. x ++ 10 ∷ l) (unlines-append xs ys)
    ∙ sym (append_assoc x (10 ∷ unlines xs) (unlines ys))

-- A text grows by whole lines.
abbrev pub Grows : Text → List Text → Text → Type 0
Grows out ls out' = out' ≡ out ++ unlines ls

Grows-line : (out l : Text) → Grows out (l ∷ []) (out ++ (l ++ 10 ∷ []))
Grows-line out l = refl

pub Grows-trans :
    (out out' out'' : Text) (xs ys : List Text)
    → Grows out xs out'
    → Grows out' ys out''
    → Grows out (xs ++ ys) out''
Grows-trans out out' out'' xs ys e e' =
    e'
    ∙ ap (λ l. l ++ unlines ys) e
    ∙ append_assoc out (unlines xs) (unlines ys)
    ∙ ap (λ l. out ++ l) (sym (unlines-append xs ys))

abbrev pub family_sample : Family → StatsSnapshot → Text
family_sample f s = sample_line f.name s.label (f.getter s)

-- The help, the kind, and one sample for each forwarder in order.
abbrev pub family_lines : List StatsSnapshot → Family → List Text
family_lines snaps f =
    help_line f.name f.help ∷ type_line f.name f.kind ∷ map (family_sample f) snaps

abbrev pub concat : List (List Text) → List Text
concat [] = []
concat (l ∷ ls) = l ++ concat ls

-- One line for each forwarder whose target has been probed.
abbrev pub target_lines : List StatsSnapshot → List Text
target_lines [] = []
target_lines (s ∷ snaps) = elim s.reachable [
  | some up ↦ sample_line target_name s.label (bit up) ∷ target_lines snaps
  | none ↦ target_lines snaps
]

abbrev pub udp_lines : List StatsSnapshot → List Text
udp_lines [] = []
udp_lines (s ∷ snaps) = concat (map (family_lines (s ∷ snaps)) udp_families)

pub push_samples-Grows :
    (out : Text) (f : Family) (snaps : List StatsSnapshot)
    → Grows out (map (family_sample f) snaps) (push_samples out f snaps)
unfolding push_samples
push_samples-Grows out f [] = sym (append-nil out)
push_samples-Grows out f (s ∷ snaps) =
    let l = family_sample f s in
    let out' = out ++ (l ++ 10 ∷ []) in
    Grows-trans out out' (push_samples out' f snaps) (l ∷ []) (map (family_sample f) snaps) refl
      (push_samples-Grows out' f snaps)

pub push_metric-Grows :
    (out : Text) (f : Family) (snaps : List StatsSnapshot)
    → Grows out (family_lines snaps f) (push_metric out f snaps)
unfolding push_metric
push_metric-Grows out f snaps =
    let h = help_line f.name f.help in
    let k = type_line f.name f.kind in
    let out' = out ++ (h ++ 10 ∷ []) in
    let out'' = out' ++ (k ++ 10 ∷ []) in
    let samples = map (family_sample f) snaps in
    let last = push_samples out'' f snaps in
    Grows-trans out out' last (h ∷ []) (k ∷ samples) refl
      (Grows-trans out' out'' last (k ∷ []) samples refl (push_samples-Grows out'' f snaps))

pub push_metrics-Grows :
    (out : Text) (fs : List Family) (snaps : List StatsSnapshot)
    → Grows out (concat (map (family_lines snaps) fs)) (push_metrics out fs snaps)
unfolding push_metrics
push_metrics-Grows out [] snaps = sym (append-nil out)
push_metrics-Grows out (f ∷ fs) snaps =
    let out' = push_metric out f snaps in
    Grows-trans out out' (push_metrics out' fs snaps) (family_lines snaps f)
      (concat (map (family_lines snaps) fs)) (push_metric-Grows out f snaps)
      (push_metrics-Grows out' fs snaps)

pub push_targets-Grows :
    (out : Text) (snaps : List StatsSnapshot)
    → Grows out (target_lines snaps) (push_targets out snaps)
unfolding push_targets
push_targets-Grows out [] = sym (append-nil out)
push_targets-Grows out (s ∷ snaps) = elim (Option-cases s.reachable) [
  | inl e ↦ rw (push_targets, e) (push_targets-Grows out snaps)
  | inr (up, e) ↦
      let l = sample_line target_name s.label (bit up) in
      let out' = out ++ (l ++ 10 ∷ []) in
      rw (push_targets, e)
        (Grows-trans out out' (push_targets out' snaps) (l ∷ []) (target_lines snaps) refl
          (push_targets-Grows out' snaps))
]

pub push_udp-Grows :
    (out : Text) (snaps : List StatsSnapshot) → Grows out (udp_lines snaps) (push_udp out snaps)
unfolding push_udp
push_udp-Grows out [] = sym (append-nil out)
push_udp-Grows out (s ∷ snaps) = push_metrics-Grows out udp_families (s ∷ snaps)
