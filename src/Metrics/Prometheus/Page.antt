-- ===== src/Metrics/Prometheus/Page.antt =====
-- The lines of `render_prometheus` as a whole.
use rfw.Text.Laws.{split-append}
use rfw.Base.{
  All, All-append, List, Option-cases, [], ap, append_assoc, arith, inl, inr, map, refl, true, ℕ,
  ◌++◌, ◌∙◌, ◌∷◌, ◌≡◌, ◌≢◌,
}
use rfw.Text.{Lacks, Text, codes, split}
use rfw.Text.Lines.{one_line, one_line-Lacks, show-Lacks}
use rfw.Stats.Registry.{StatsSnapshot}
use rfw.Metrics.Escape.{escape}
use rfw.Metrics.Escape.Clean.{escape-Lacks}
use rfw.Metrics.Prometheus.{
  Family, bit, families, gauge, help_line, push_metrics, push_targets, push_udp, render_prometheus,
  sample_line, target_help, target_name, type_line, udp_families, udp_only,
}
use rfw.Metrics.Prometheus.Lines.{
  Grows, Grows-trans, concat, family_lines, family_sample, push_metrics-Grows, push_targets-Grows,
  push_udp-Grows, target_lines, udp_lines, unlines,
}

pub help_line-Lacks :
    (name help : Text) → Lacks 10 name → Lacks 10 help → Lacks 10 (help_line name help)
unfolding help_line
help_line-Lacks name help n h =
    All-append (λ c. c ≢ 10) (codes "# HELP ") (name ++ b' ' ∷ help)
      (one_line-Lacks (codes "# HELP ") refl)
      (All-append (λ c. c ≢ 10) name (b' ' ∷ help) n (omega arith, h))

pub type_line-Lacks :
    (name kind : Text) → Lacks 10 name → Lacks 10 kind → Lacks 10 (type_line name kind)
unfolding type_line
type_line-Lacks name kind n h =
    All-append (λ c. c ≢ 10) (codes "# TYPE ") (name ++ b' ' ∷ kind)
      (one_line-Lacks (codes "# TYPE ") refl)
      (All-append (λ c. c ≢ 10) name (b' ' ∷ kind) n (omega arith, h))

sample_line-Lacks :
    (name label : Text) (value : ℕ) → Lacks 10 name → Lacks 10 (sample_line name label value)
unfolding sample_line
sample_line-Lacks name label value n =
    let lit = codes "{label=\"" in
    let lit' = codes "\"} " in
    let append = All-append (λ c. c ≢ 10) in
    append name _ n (
      append lit _ (one_line-Lacks lit refl) (
        append (escape label) _ (escape-Lacks label)
          (append lit' _ (one_line-Lacks lit' refl) (show-Lacks value))))

-- What the code names for a family has no line feed.
abbrev Plain : Family → Type 0
Plain f = (one_line f.name ≡ true) × (one_line f.help ≡ true) × (one_line f.kind ≡ true)

abbrev pub AllLack : List Text → Type 0
AllLack = All (Lacks 10)

samples-AllLack :
    (f : Family) (snaps : List StatsSnapshot)
    → one_line f.name ≡ true
    → AllLack (map (family_sample f) snaps)
samples-AllLack f [] p = tt
samples-AllLack f (s ∷ snaps) p = (
  sample_line-Lacks f.name s.label (f.getter s) (one_line-Lacks f.name p),
  samples-AllLack f snaps p,
)

family_lines-AllLack :
    (snaps : List StatsSnapshot) (fs : List Family)
    → All Plain fs
    → AllLack (concat (map (family_lines snaps) fs))
family_lines-AllLack snaps [] h = tt
family_lines-AllLack snaps (f ∷ fs) ((n, e, k), h) =
    let name = one_line-Lacks f.name n in
    (
      help_line-Lacks f.name f.help name (one_line-Lacks f.help e),
      (
        type_line-Lacks f.name f.kind name (one_line-Lacks f.kind k),
        All-append (Lacks 10) (map (family_sample f) snaps) _ (samples-AllLack f snaps n)
            (family_lines-AllLack snaps fs h),
      ),
    )

target_lines-AllLack : (snaps : List StatsSnapshot) → AllLack (target_lines snaps)
target_lines-AllLack [] = tt
target_lines-AllLack (s ∷ snaps) = elim (Option-cases s.reachable) [
  | inl e ↦ rw e (target_lines-AllLack snaps)
  | inr (up, e) ↦ rw e (
    sample_line-Lacks target_name s.label (bit up) (one_line-Lacks target_name refl),
    target_lines-AllLack snaps,
  )
]

udp_lines-AllLack : (snaps : List StatsSnapshot) → AllLack (udp_lines snaps)
unfolding udp_families
udp_lines-AllLack [] = tt
udp_lines-AllLack (s ∷ snaps) =
    family_lines-AllLack (s ∷ snaps) udp_families
      ((refl, refl, refl), ((refl, refl, refl), ((refl, refl, refl), tt)))

abbrev pub target_head : List Text
target_head = help_line target_name target_help ∷ type_line target_name gauge ∷ []

-- The lines of the page: for each metric its help, its kind and a sample for each forwarder, the targets
-- that have been probed, and the datagrams of the forwarders of UDP, if there is one.
unfoldable pub page : List StatsSnapshot → List Text
page snaps =
    concat (map (family_lines snaps) families)
    ++ (target_head ++ (target_lines snaps ++ udp_lines (udp_only snaps)))

page-AllLack : (snaps : List StatsSnapshot) → AllLack (page snaps)
unfolding page families
page-AllLack snaps =
    All-append (Lacks 10) (concat (map (family_lines snaps) families)) _
      (family_lines-AllLack snaps families (
        (refl, refl, refl),
        (
          (refl, refl, refl),
          (
            (refl, refl, refl),
            (
              (refl, refl, refl),
              ((refl, refl, refl), ((refl, refl, refl), ((refl, refl, refl), tt))),
            ),
          ),
        ),
      ))
      (
        help_line-Lacks target_name target_help (one_line-Lacks target_name refl)
            (one_line-Lacks target_help refl),
        (
          type_line-Lacks target_name gauge (one_line-Lacks target_name refl)
              (one_line-Lacks gauge refl),
          All-append (Lacks 10) (target_lines snaps) _ (target_lines-AllLack snaps)
              (udp_lines-AllLack (udp_only snaps)),
        ),
      )

render_prometheus-Grows :
    (snaps : List StatsSnapshot) → Grows [] (page snaps) (render_prometheus snaps)
unfolding page render_prometheus
render_prometheus-Grows snaps =
    let out = push_metrics [] families snaps in
    let h = help_line target_name target_help in
    let k = type_line target_name gauge in
    let out1 = out ++ (h ++ 10 ∷ []) in
    let out2 = out1 ++ (k ++ 10 ∷ []) in
    let out3 = push_targets out2 snaps in
    let last = push_udp out3 (udp_only snaps) in
    let udp = udp_lines (udp_only snaps) in
    let targets = target_lines snaps in
    Grows-trans [] out last (concat (map (family_lines snaps) families))
      (target_head ++ (targets ++ udp)) (push_metrics-Grows [] families snaps)
      (Grows-trans out out1 last (h ∷ []) (k ∷ (targets ++ udp)) refl (
        Grows-trans out1 out2 last (k ∷ []) (targets ++ udp) refl (
          Grows-trans out2 out3 last targets udp (push_targets-Grows out2 snaps)
            (push_udp-Grows out3 (udp_only snaps)))))

pub split-unlines :
    (ls : List Text) (rest : Text)
    → AllLack ls
    → split 10 (unlines ls ++ rest) ≡ ls ++ split 10 rest
split-unlines [] rest h = refl
split-unlines (l ∷ ls) rest (h, others) =
    ap (split 10) (append_assoc l (10 ∷ unlines ls) rest)
    ∙ split-append 10 l (unlines ls ++ rest) h
    ∙ ap (λ x. l ∷ x) (split-unlines ls rest others)

-- The lines of `render_prometheus` are those of the page, whatever the labels are and whatever text
-- follows: no label adds or ends a line.
pub render_prometheus_lem :
    (snaps : List StatsSnapshot) (rest : Text)
    → split 10 (render_prometheus snaps ++ rest) ≡ page snaps ++ split 10 rest
render_prometheus_lem snaps rest =
    ap (λ t. split 10 (t ++ rest)) (render_prometheus-Grows snaps)
    ∙ split-unlines (page snaps) rest (page-AllLack snaps)
