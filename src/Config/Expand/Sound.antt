-- ===== src/Config/Expand/Sound.antt =====
-- `expand_specs` and `validate_no_duplicates` of `src/config.rs` compare different keys: the former
-- the parts of an endpoint, the latter its text.
use mathlib.Core.List.{map-append}
use rfw.Text.Laws.{rsplit_once-append}
use rfw.Text.Decimal.Laws.{parse_uint-show}
use rfw.Text.Decimal.{show, u16_max}
use rfw.Text.{Text, rsplit_once}
use rfw.Base.{
  All, Distinct, List, Option, [], ap, arith, contains, count_up, false, list_eq, map, nat_eq, ok,
  refl, some, suc, sym, zero, ℕ, ◌%◌, ◌+◌, ◌-◌, ◌↔◌, ◌∙◌, ◌∷◌, ◌≡◌, ◌≢◌, ◌≤◌,
}
use rfw.Config.Forwarder.{ForwarderConfig, endpoint, local_addr, protocol_eq}
use rfw.Config.PortSpan.RoundTrip.{show-Lacks}
use rfw.Config.Spec.{ForwarderSpec, at_offset, expand}
use rfw.Config.PortSpan.Bounds.{len_lem}
use rfw.Config.Spec.Bounds.{IsSpec}
use rfw.Config.Expand.Claims.{claimed, endpoint_at, expand_all, expand_specs_iff}
use rfw.Config.PortSpan.{len}
use rfw.Config.Expand.{
  Address, Endpoint, address_beq_iff, address_eq, check_unique, endpoint_eq, expand_specs,
  local_ports, validate_no_duplicates,
}

abbrev pub address : ForwarderConfig → Address
address f = (f.protocol, local_addr f)

contains-push :
    (x : Address) (seen as_ : List Address)
    → All (λ a. contains (x ∷ seen) a ≡ false) as_
      ↔ (All (λ a. contains seen a ≡ false) as_ × All (λ a. x ≢ a) as_)
contains-push x seen [] = ((λ h. (tt, tt)), λ h. tt)
contains-push x seen (a ∷ as_) = ground (arith, address_beq_iff x a, contains-push x seen as_)

check_unique_iff :
    (seen : List Address) (fwd : List ForwarderConfig)
    → (check_unique seen fwd ≡ ok tt)
      ↔ (All (λ a. contains seen a ≡ false) (map address fwd) × Distinct (map address fwd))
unfolding check_unique
check_unique_iff seen [] = ground arith
check_unique_iff seen (f ∷ fwd) = ground (
  arith,
  check_unique_iff (address f ∷ seen) fwd,
  contains-push (address f) seen (map address fwd),
)

All-unseen : (as_ : List Address) → All (λ a. contains [] a ≡ false) as_
All-unseen [] = tt
All-unseen (a ∷ as_) = (refl, All-unseen as_)

-- The second check passes exactly when no two forwarders have one protocol and one local address.
pub validate_no_duplicates_iff :
    (fwd : List ForwarderConfig) → (validate_no_duplicates fwd ≡ ok tt) ↔ Distinct (map address fwd)
unfolding validate_no_duplicates
validate_no_duplicates_iff fwd =
    let (to, from) = check_unique_iff [] fwd in
    ((λ h. (to h).1), λ h. from (All-unseen (map address fwd), h))

show-injective : (n m : ℕ) → show n ≡ show m → n ≡ m
show-injective n m h =
    cc (parse_uint-show (n + m) n (omega arith), parse_uint-show (n + m) m (omega arith))

-- A printed port holds no colon, so the address determines the host, whatever the host holds.
pub endpoint-injective :
    (h g : Text) (n m : ℕ) → endpoint h (show n) ≡ endpoint g (show m) → (h ≡ g) × (n ≡ m)
endpoint-injective h g n m e =
    let hn = rsplit_once-append b':' h (show n) (show-Lacks b':' n (omega arith)) in
    let gm = rsplit_once-append b':' g (show m) (show-Lacks b':' m (omega arith)) in
    let cuts : ◌≡◌ {A = Option (Text × Text)} (some (h, show n)) (some (g, show m)) =
      sym hn ∙ ap (rsplit_once b':') e ∙ gm in
    (cc, show-injective n m (cc))

-- What `validate_no_duplicates` sees of an endpoint.
abbrev shown : Endpoint → Address
shown (p, h, n) = (p, endpoint h (show n))

shown-injective : (a b : Endpoint) → shown a ≡ shown b → a ≡ b
shown-injective (p, h, n) (q, g, m) e =
    let (host, port) = endpoint-injective h g n m (ap (λ (a : Address). a.1) e) in
    let protocol = ap (λ (a : Address). a.0) e in ground arith

shown-ne :
    (a : Endpoint) (ks : List Endpoint)
    → All (λ k. a ≢ k) ks
    → All (λ x. shown a ≢ x) (map shown ks)
shown-ne a [] h = tt
shown-ne a (k ∷ ks) h = ((λ e. h.0 (shown-injective a k e)), shown-ne a ks h.1)

Distinct-shown : (ks : List Endpoint) → Distinct ks → Distinct (map shown ks)
Distinct-shown [] d = tt
Distinct-shown (k ∷ ks) d = (shown-ne k ks d.0, Distinct-shown ks d.1)

address-at_offset :
    (s : ForwarderSpec) (j n : ℕ)
    → s.local.start + j + n ≤ u16_max + 1
    → map address (map (at_offset s) (count_up j n))
      ≡ map shown (map (endpoint_at s) (count_up (s.local.start + j) n))
unfolding local_addr
address-at_offset s j zero h = refl
address-at_offset s j (suc n) h =
    let port : (s.local.start + j) % (u16_max + 1) ≡ s.local.start + j = omega arith in
    let next : s.local.start + j + 1 ≡ s.local.start + (j + 1) = omega arith in
    rw (next, port, address-at_offset s (j + 1) n (omega arith))

address-expand :
    (s : ForwarderSpec)
    → IsSpec s
    → map address (expand s) ≡ map shown (map (endpoint_at s) (local_ports s))
unfolding expand
address-expand s v =
    let length_eq = len_lem v.local_ok.ordered v.local_ok.fits in
    let count : len s.local % (u16_max + 1) ≡ s.local.end + 1 - s.local.start = omega arith in
    let start : s.local.start + 0 ≡ s.local.start = omega arith in
    rw count (address-at_offset s 0 (s.local.end + 1 - s.local.start) (omega arith) ∙ rw start)

address-expand_all :
    (specs : List ForwarderSpec)
    → All IsSpec specs
    → map address (expand_all specs) ≡ map shown (claimed specs)
address-expand_all [] v = refl
address-expand_all (s ∷ specs) v =
    rw
      (
        map-append address (expand s) (expand_all specs),
        address-expand s v.0,
        address-expand_all specs v.1,
      )
      (sym (map-append shown (map (endpoint_at s) (local_ports s)) (claimed specs)))

-- On entries that `new` made from spans, a list that `expand_specs` returns has no two forwarders
-- with one protocol and one local address, so `validate_no_duplicates` accepts it.
pub validate_no_duplicates-expand_specs :
    (specs : List ForwarderSpec) (res : List ForwarderConfig)
    → All IsSpec specs
    → expand_specs specs ≡ ok res
    → validate_no_duplicates res ≡ ok tt
validate_no_duplicates-expand_specs specs res v h =
    let (same, distinct) = (expand_specs_iff specs res).0 h in
    (validate_no_duplicates_iff res).1
      (rw (same, address-expand_all specs v) (Distinct-shown (claimed specs) distinct))
