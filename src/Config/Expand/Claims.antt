-- ===== src/Config/Expand/Claims.antt =====
-- The loops of `expand_specs` in `src/config.rs`, against the list of claimed endpoints.
use mathlib.Core.List.{append_assoc}
use rfw.Text.{split}
use rfw.Base.{
  >>=-eq-ok, All, Distinct, List, Option-cases, [], append-nil, append_assoc, arith, err, inl, inr,
  map, none, ok, refl, some, sym, ℕ, ◌++◌, ◌+◌, ◌↔◌, ◌∙◌, ◌∷◌, ◌≡◌, ◌≢◌,
}
use rfw.Config.Forwarder.{ForwarderConfig}
use rfw.Config.Spec.{ForwarderSpec, expand}
use rfw.Config.Expand.{
  Endpoint, Owner, claim, collision, endpoint_beq_iff, expand_from, expand_specs, local_ports,
  owner_of,
}

abbrev pub endpoint_at : ForwarderSpec → ℕ → Endpoint
endpoint_at s port = (s.protocol, s.local_host, port)

-- The local endpoints that the entries claim, in order.
abbrev pub claimed : List ForwarderSpec → List Endpoint
claimed [] = []
claimed (s ∷ specs) = map (endpoint_at s) (local_ports s) ++ claimed specs

abbrev pub expand_all : List ForwarderSpec → List ForwarderConfig
expand_all [] = []
expand_all (s ∷ specs) = expand s ++ expand_all specs

-- No endpoint of the list is owned, and none occurs twice.
abbrev Free : List Endpoint → Owner → Type 0
Free ks owner = All (λ k. owner_of k owner ≡ none) ks × Distinct ks

owner_of-push :
    (e : Endpoint) (i : ℕ) (owner : Owner) (ks : List Endpoint)
    → All (λ k. owner_of k ((e, i) ∷ owner) ≡ none) ks
      ↔ (All (λ k. owner_of k owner ≡ none) ks × All (λ k. e ≢ k) ks)
unfolding owner_of
owner_of-push e i owner [] = ((λ h. (tt, tt)), λ h. tt)
owner_of-push e i owner (k ∷ ks) = ground (arith, endpoint_beq_iff e k, owner_of-push e i owner ks)

-- Claiming one endpoint leaves the rest to be claimed behind it.
Free-cons :
    (e : Endpoint) (i : ℕ) (owner : Owner) (ks : List Endpoint)
    → Free (e ∷ ks) owner ↔ ((owner_of e owner ≡ none) × Free ks ((e, i) ∷ owner))
Free-cons e i owner ks = ground (arith, owner_of-push e i owner ks)

-- The owners after the endpoints of one entry are claimed.
abbrev grow : ℕ → List Endpoint → Owner → Owner
grow i [] owner = owner
grow i (e ∷ ks) owner = grow i ks ((e, i) ∷ owner)

Free-append :
    (i : ℕ) (xs ys : List Endpoint) (owner : Owner)
    → Free (xs ++ ys) owner ↔ (Free xs owner × Free ys (grow i xs owner))
Free-append i [] ys owner = ((λ h. ((tt, tt), h)), λ h. h.1)
Free-append i (x ∷ xs) ys owner =
    let (split, join) = Free-append i xs ys ((x, i) ∷ owner) in
    (
      (λ h.
          let (free, rest) = (Free-cons x i owner (xs ++ ys)).0 h in
          let (here, there) = split rest in ((Free-cons x i owner xs).1 (free, here), there)),
      λ (h, there).
          let (free, here) = (Free-cons x i owner xs).0 h in
          (Free-cons x i owner (xs ++ ys)).1 (free, join (here, there)),
    )

module _ (specs : List ForwarderSpec) where
  claim_free :
      (i : ℕ) (s : ForwarderSpec) (p : ℕ) (ports : List ℕ) (owner : Owner)
      → owner_of (endpoint_at s p) owner ≡ none
      → claim specs i s (p ∷ ports) owner ≡ claim specs i s ports ((endpoint_at s p, i) ∷ owner)
  unfolding claim
  claim_free i s p ports owner h = rw (h, claim)

  claim_taken :
      (i : ℕ) (s : ForwarderSpec) (p : ℕ) (ports : List ℕ) (owner : Owner) (first : ℕ)
      → owner_of (endpoint_at s p) owner ≡ some first
      → claim specs i s (p ∷ ports) owner ≡ err (collision specs first s p)
  unfolding claim
  claim_taken i s p ports owner first h = rw (h, claim)

  claim_iff :
      (i : ℕ) (s : ForwarderSpec) (ports : List ℕ) (owner out : Owner)
      → (claim specs i s ports owner ≡ ok out) ↔ (
          (out ≡ grow i (map (endpoint_at s) ports) owner) × Free (map (endpoint_at s) ports) owner)
  claim_iff i s [] owner out = unfold claim in ((λ h. (cc, (tt, tt))), λ h. cc)
  claim_iff i s (p ∷ ports) owner out =
      let e = endpoint_at s p in
      let (to, from) = claim_iff i s ports ((e, i) ∷ owner) out in
      let (split, join) = Free-cons e i owner (map (endpoint_at s) ports) in
      elim (Option-cases (owner_of e owner)) [
        | inl free ↦
            let step = claim_free i s p ports owner free in
            (
              (λ h. let (eq, rest) = to (sym step ∙ h) in (eq, join (free, rest))),
              λ h. step ∙ from (h.0, (split h.1).1),
            )
        | inr (j, taken) ↦
            let step = claim_taken i s p ports owner j taken in
            ((λ h. cc), λ h. let none_owner = (split h.1).0 in cc)
      ]

  expand_from_iff :
      (i : ℕ) (rest : List ForwarderSpec) (owner : Owner) (out res : List ForwarderConfig)
      → (expand_from specs i rest owner out ≡ ok res)
        ↔ ((res ≡ out ++ expand_all rest) × Free (claimed rest) owner)
  unfolding expand_from
  expand_from_iff i [] owner out res =
      ((λ h. (ground (arith, append-nil out), (tt, tt))), λ h. ground (arith, append-nil out))
  expand_from_iff i (s ∷ rest) owner out res =
      let keys = map (endpoint_at s) (local_ports s) in
      let owner' = grow i keys owner in
      let (claim_to, claim_from) = claim_iff i s (local_ports s) owner owner' in
      let (to, from) = expand_from_iff (i + 1) rest owner' (out ++ expand s) res in
      let (split, join) = Free-append i keys (claimed rest) owner in
      let assoc = append_assoc out (expand s) (expand_all rest) in
      (
        (λ h.
            let (o, claimed_ok, tail_ok) = >>=-eq-ok (claim specs i s (local_ports s) owner) _ h in
            let (same, free) = (claim_iff i s (local_ports s) owner o).0 claimed_ok in
            let (eq, there) = to (rw same at tail_ok) in (eq ∙ assoc, join (free, there))),
        λ h.
            let (here, there) = split h.1 in
            rw (claim_from (refl, here)) (from (h.0 ∙ sym assoc, there)),
      )

none_owned : (ks : List Endpoint) → All (λ k. owner_of k [] ≡ none) ks
unfolding owner_of
none_owned [] = tt
none_owned (k ∷ ks) = (refl, none_owned ks)

-- Expansion succeeds exactly when no local endpoint is claimed twice, and then gives the forwarders
-- of all entries, in order.
pub expand_specs_iff :
    (specs : List ForwarderSpec) (res : List ForwarderConfig)
    → (expand_specs specs ≡ ok res) ↔ ((res ≡ expand_all specs) × Distinct (claimed specs))
unfolding expand_specs
expand_specs_iff specs res =
    let (to, from) = expand_from_iff specs 0 specs [] [] res in
    (
      (λ h. let (eq, free) = to h in (eq, free.1)),
      λ h. from (h.0, (none_owned (claimed specs), h.1)),
    )
