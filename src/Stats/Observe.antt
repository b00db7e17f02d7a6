-- ===== src/Stats/Observe.antt =====
-- `observe_addrs` of `src/stats.rs`: what it reports of successive DNS answers.

use rfw.Base.{
  Bool-cases, List, Option, ap, arith, false, if_both, inl, inr, list_beq_iff, list_eq, nat_eq,
  none, refl, some, sym, true, ◌==◌, ◌↔◌, ◌∙◌, ◌≡◌,
}
use rfw.Net.{IpAddr, address_set, ip_eq}
use rfw.Net.AddressSet.{SameMembers, address_set_iff}
use rfw.Stats.{ForwarderStats, observe_addrs, observe_set}

abbrev Outcome : Type 0
Outcome = ForwarderStats × Option (List IpAddr)

abbrev stored : ForwarderStats → List IpAddr → ForwarderStats
stored s set = record s { last_addrs = some set }

observe_same :
    (s : ForwarderStats) (prev addrs : List IpAddr)
    → s.last_addrs ≡ some prev
    → prev ≡ address_set addrs
    → observe_addrs s addrs ≡ (stored s (address_set addrs), none)
unfolding observe_addrs
observe_same s prev addrs e same =
    let again : (prev == address_set addrs) ≡ true =
      (list_beq_iff prev (address_set addrs)).1 same in
    ground arith

observe_other :
    (s : ForwarderStats) (prev addrs : List IpAddr)
    → s.last_addrs ≡ some prev
    → (prev == address_set addrs) ≡ false
    → observe_addrs s addrs ≡ (stored s (address_set addrs), some prev)
unfolding observe_addrs
observe_other s prev addrs e other = ground arith

-- An answer is reported exactly when addresses were observed before and are not the same ones, with
-- the addresses observed before; in every case it is the answer that the next one is compared with.
pub observe_addrs_lem :
    (s : ForwarderStats) (seen addrs : List IpAddr)
    → s.last_addrs ≡ some (address_set seen)
    → ((observe_addrs s addrs).0 ≡ record s { last_addrs = some (address_set addrs) })
      × (((observe_addrs s addrs).1 ≡ none) ↔ SameMembers seen addrs)
      × (((observe_addrs s addrs).1 ≡ some (address_set seen)) ↔ ¬ SameMembers seen addrs)
observe_addrs_lem s seen addrs e =
    let sets = address_set_iff seen addrs in
    let test = list_beq_iff ⦃e = ip_eq⦄ (address_set seen) (address_set addrs) in
    elim (Bool-cases (address_set seen == address_set addrs)) [
      | inl t ↦
          let r = observe_same s (address_set seen) addrs e (test.0 t) in
          let same = sets.0 (test.0 t) in
          (
            ap (λ (o : Outcome). o.0) r,
            ((λ _. same), λ _. ap (λ (o : Outcome). o.1) r),
            ((λ h m. cc (sym h ∙ ap (λ (o : Outcome). o.1) r)), λ h. absurd (h same)),
          )
      | inr f ↦
          let r = observe_other s (address_set seen) addrs e f in
          let differ : ¬ SameMembers seen addrs = λ m. cc (f, test.1 (sets.1 m)) in
          (
            ap (λ (o : Outcome). o.0) r,
            ((λ h. absurd (cc (sym h ∙ ap (λ (o : Outcome). o.1) r))), λ m. absurd (differ m)),
            ((λ _. differ), λ _. ap (λ (o : Outcome). o.1) r),
          )
    ]

-- The first answer is never reported, and is what the second is compared with.
pub observe_addrs_first :
    (s : ForwarderStats) (addrs : List IpAddr)
    → s.last_addrs ≡ none
    → observe_addrs s addrs ≡ (record s { last_addrs = some (address_set addrs) }, none)
unfolding observe_addrs
observe_addrs_first s addrs e = rw (e, observe_set)

-- What the observation of an answer leaves alone.
abbrev pub Untouched : ForwarderStats → ForwarderStats → Type 0
Untouched s s' = (s'.last_connect_ok_ms ≡ s.last_connect_ok_ms) × (s'.probe_kick ≡ s.probe_kick)

observe_set-Untouched :
    (s : ForwarderStats) (sorted : List IpAddr) (o : Option (List IpAddr))
    → Untouched s (observe_set s sorted o).0
unfolding observe_set
observe_set-Untouched s sorted none = (refl, refl)
observe_set-Untouched s sorted (some prev) =
    if_both (λ (o : Outcome). Untouched s o.0) (prev == sorted) (s, none)
      (record s { last_addrs = some sorted }, some prev) (refl, refl) (refl, refl)

pub observe_addrs-Untouched :
    (s : ForwarderStats) (addrs : List IpAddr) → Untouched s (observe_addrs s addrs).0
unfolding observe_addrs
observe_addrs-Untouched s addrs = observe_set-Untouched s (address_set addrs) s.last_addrs
