-- ===== src/Config/Expand.antt =====
-- `expand_specs` and `validate_no_duplicates` of `src/config.rs`.
pub mod Claims
pub mod Sound
use rfw.Text.Decimal.{show}
use rfw.Text.{Text}
use rfw.Base.{
  Bool, Eq, List, Option, Result, [], arith, contains, count_up, err, get_elem?, if◌then◌else◌,
  list_beq_iff, list_eq, nat_beq_iff, nat_eq, none, ok, some, true, ℕ, ◌&&◌, ◌++◌, ◌+◌, ◌-◌, ◌==◌,
  ◌>>=◌, ◌>>◌, ◌↔◌, ◌∷◌, ◌≡◌,
}
use rfw.Config.Forwarder.{
  ForwarderConfig, Protocol, endpoint, local_addr, protocol_beq_iff, protocol_eq, protocol_suffix,
}
use rfw.Config.Spec.{ForwarderSpec, describe, expand}

-- The key of `owner`.
abbrev pub Endpoint : Type 0
Endpoint = Protocol × Text × ℕ

abbrev pub endpoint_beq : Endpoint → Endpoint → Bool
endpoint_beq (p, h, n) (q, g, m) = (p == q) && (h == g) && (n == m)

pub endpoint_beq_iff : (a b : Endpoint) → (endpoint_beq a b ≡ true) ↔ (a ≡ b)
endpoint_beq_iff (p, h, n) (q, g, m) =
    ground (arith, protocol_beq_iff p q, list_beq_iff h g, nat_beq_iff n m)

instance abbrev pub endpoint_eq : Eq Endpoint
endpoint_eq = record { beq = endpoint_beq; beq_iff = endpoint_beq_iff }

-- `owner`, a hash map from endpoints to indices of `specs`.
abbrev pub Owner : Type 0
Owner = List (Endpoint × ℕ)

unfoldable pub owner_of : Endpoint → Owner → Option ℕ
owner_of k [] = none
owner_of k ((j, i) ∷ owner) = if j == k then some i else owner_of k owner

-- The fields are what the message shows: the address, and the description of one or both entries.
pub data DuplicateError : Type 0 where
  listed_twice : Text → Text → DuplicateError
  defined_by_both : Text → Text → Text → DuplicateError

-- An index out of bounds is a panic in the source; `owner` holds only indices of `specs`.
abbrev pub describe_at : List ForwarderSpec → ℕ → Text
describe_at specs i = elim (get_elem? specs i) [ none ↦ [] | some s ↦ describe s ]

collision : List ForwarderSpec → ℕ → ForwarderSpec → ℕ → DuplicateError
collision specs first spec port =
    let addr = endpoint spec.local_host (show port) ++ protocol_suffix spec.protocol in
    let a = describe_at specs first in
    let b = describe spec in if a == b then listed_twice addr a else defined_by_both addr a b

-- The inner loop, over the ports left to claim.
claim : List ForwarderSpec → ℕ → ForwarderSpec → List ℕ → Owner → Result DuplicateError Owner
unfolding owner_of collision
claim specs index spec [] owner = ok owner
claim specs index spec (port ∷ ports) owner =
    elim (owner_of (spec.protocol, spec.local_host, port) owner) [
      | some first ↦ err (collision specs first spec port)
      | none ↦
          claim specs index spec ports (((spec.protocol, spec.local_host, port), index) ∷ owner)
    ]

-- `start..=end`.
abbrev pub local_ports : ForwarderSpec → List ℕ
local_ports s = count_up s.local.start (s.local.end + 1 - s.local.start)

-- The outer loop, over the entries left.
expand_from :
    List ForwarderSpec
    → ℕ
    → List ForwarderSpec
    → Owner
    → List ForwarderConfig
    → Result DuplicateError (List ForwarderConfig)
unfolding claim
expand_from specs index [] owner out = ok out
expand_from specs index (spec ∷ rest) owner out = do
  owner' ← claim specs index spec (local_ports spec) owner
  expand_from specs (index + 1) rest owner' (out ++ expand spec)

unfoldable pub expand_specs : List ForwarderSpec → Result DuplicateError (List ForwarderConfig)
unfolding expand_from
expand_specs specs = expand_from specs 0 specs [] []

abbrev pub Address : Type 0
Address = Protocol × Text

abbrev pub address_beq : Address → Address → Bool
address_beq (p, a) (q, b) = (p == q) && (a == b)

pub address_beq_iff : (a b : Address) → (address_beq a b ≡ true) ↔ (a ≡ b)
address_beq_iff (p, a) (q, b) = ground (arith, protocol_beq_iff p q, list_beq_iff a b)

instance abbrev pub address_eq : Eq Address
address_eq = record { beq = address_beq; beq_iff = address_beq_iff }

-- The loop of `validate_no_duplicates`; the error carries the address that the message shows.
check_unique : List Address → List ForwarderConfig → Result Text (Unit {0})
check_unique seen [] = ok tt
check_unique seen (f ∷ fwd) =
    let rest = check_unique ((f.protocol, local_addr f) ∷ seen) fwd in
    if contains seen (f.protocol, local_addr f)
    then err (local_addr f ++ protocol_suffix f.protocol)
    else rest

unfoldable pub validate_no_duplicates : List ForwarderConfig → Result Text (Unit {0})
unfolding check_unique
validate_no_duplicates fwd = check_unique [] fwd
