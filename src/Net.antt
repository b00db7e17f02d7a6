-- ===== src/Net.antt =====
-- `std::net::IpAddr` and `SocketAddr`, and `sort_unstable` with `dedup` on addresses.
pub mod AddressSet
use rfw.Base.{
  Bool, Eq, List, [], arith, false, if◌then◌else◌, list_eq, ltb, nat_beq, nat_eq, true, ℕ, ◌==◌,
  ◌↔◌, ◌∷◌, ◌≡◌,
}

-- An address is the number that its bytes spell, 4 or 16 of them.
pub data IpAddr : Type 0 where
  v4 v6 : ℕ → IpAddr

-- The flow information and the scope id of an IPv6 address are left out.
pub record SocketAddr : Type 0 where
  pub ip : IpAddr
  pub port : ℕ

-- `Ord`: every IPv4 address before every IPv6 address, and then by the bytes.
abbrev pub ip_ltb : IpAddr → IpAddr → Bool
ip_ltb (v4 a) (v4 b) = ltb a b
ip_ltb (v4 a) (v6 b) = true
ip_ltb (v6 a) (v4 b) = false
ip_ltb (v6 a) (v6 b) = ltb a b

abbrev pub ip_beq : IpAddr → IpAddr → Bool
ip_beq (v4 a) (v4 b) = nat_beq a b
ip_beq (v6 a) (v6 b) = nat_beq a b
ip_beq _ _ = false

pub ip_beq_iff : (a b : IpAddr) → (ip_beq a b ≡ true) ↔ (a ≡ b)
ip_beq_iff (v4 a) (v4 b) = ground arith
ip_beq_iff (v4 a) (v6 b) = ground arith
ip_beq_iff (v6 a) (v4 b) = ground arith
ip_beq_iff (v6 a) (v6 b) = ground arith

instance abbrev pub ip_eq : Eq IpAddr
ip_eq = record { beq = ip_beq; beq_iff = ip_beq_iff }

insert_ip : IpAddr → List IpAddr → List IpAddr
insert_ip a [] = a ∷ []
insert_ip a (b ∷ l) = if ip_ltb b a then b ∷ insert_ip a l else a ∷ b ∷ l

-- `sort_unstable`: equal addresses cannot be told apart, so any sort gives this list.
unfoldable pub sort_ips : List IpAddr → List IpAddr
unfolding insert_ip
sort_ips [] = []
sort_ips (a ∷ l) = insert_ip a (sort_ips l)

-- `dedup`: of a run of equal addresses the first is kept.
dedup_after : IpAddr → List IpAddr → List IpAddr
dedup_after a [] = []
dedup_after a (b ∷ l) = if a == b then dedup_after a l else b ∷ dedup_after b l

unfoldable pub dedup_ips : List IpAddr → List IpAddr
unfolding dedup_after
dedup_ips [] = []
dedup_ips (a ∷ l) = a ∷ dedup_after a l

-- `to_vec`, `sort_unstable` and `dedup`, as `observe_addrs` and `report_dns_change` make them.
unfoldable pub address_set : List IpAddr → List IpAddr
unfolding sort_ips dedup_ips
address_set addrs = dedup_ips (sort_ips addrs)
