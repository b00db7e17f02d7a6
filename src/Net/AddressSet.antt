-- ===== src/Net/AddressSet.antt =====
-- `address_set`, against the members of a list: the sort and `dedup` of `observe_addrs` in
-- `src/stats.rs`.

use rfw.Base.{
  Bool-cases, List, [], ap, arith, beq_self, contains, false, inl, inr, list_eq, nat_eq, ne→beq,
  refl, subst, sym, true, ◌==◌, ◌||◌, ◌↔◌, ◌∙◌, ◌∷◌, ◌≡◌,
}
use rfw.Net.{
  IpAddr, address_set, dedup_after, dedup_ips, insert_ip, ip_beq_iff, ip_eq, ip_ltb, sort_ips, v4,
  v6,
}

abbrev pub SameMembers : List IpAddr → List IpAddr → Type 0
SameMembers xs ys = (a : IpAddr) → contains xs a ≡ contains ys a

-- Strictly ascending behind `a`.
abbrev Above : IpAddr → List IpAddr → Type 0
Above a [] = Unit
Above a (b ∷ l) = (ip_ltb a b ≡ true) × Above b l

abbrev Ascending : List IpAddr → Type 0
Ascending [] = Unit
Ascending (a ∷ l) = Above a l

-- Ascending behind `a`, with repetitions.
abbrev From : IpAddr → List IpAddr → Type 0
From a [] = Unit
From a (b ∷ l) = (ip_ltb b a ≡ false) × From b l

abbrev IsSorted : List IpAddr → Type 0
IsSorted [] = Unit
IsSorted (a ∷ l) = From a l

lt_asym : (a b : IpAddr) → ip_ltb a b ≡ true → ip_ltb b a ≡ false
lt_asym (v4 a) (v4 b) h = ground arith
lt_asym (v4 a) (v6 b) h = ground arith
lt_asym (v6 a) (v4 b) h = ground arith
lt_asym (v6 a) (v6 b) h = ground arith

lt_trans : (a b c : IpAddr) → ip_ltb a b ≡ true → ip_ltb b c ≡ true → ip_ltb a c ≡ true
lt_trans (v4 a) (v4 b) (v4 c) h k = ground arith
lt_trans (v6 a) (v6 b) (v6 c) h k = ground arith
lt_trans a b c h k = ground arith

lt_total : (a b : IpAddr) → ip_ltb a b ≡ false → (a == b) ≡ false → ip_ltb b a ≡ true
lt_total (v4 a) (v4 b) h k = ground arith
lt_total (v4 a) (v6 b) h k = ground arith
lt_total (v6 a) (v4 b) h k = ground arith
lt_total (v6 a) (v6 b) h k = ground arith

lt_irrefl : (a b : IpAddr) → ip_ltb a b ≡ true → (a == b) ≡ false
lt_irrefl (v4 a) (v4 b) h = ground arith
lt_irrefl (v4 a) (v6 b) h = ground arith
lt_irrefl (v6 a) (v4 b) h = ground arith
lt_irrefl (v6 a) (v6 b) h = ground arith

From-insert_ip :
    (b a : IpAddr) (l : List IpAddr) → ip_ltb a b ≡ false → From b l → From b (insert_ip a l)
unfolding insert_ip
From-insert_ip b a [] h s = (h, tt)
From-insert_ip b a (c ∷ l) h s = ground (arith, From-insert_ip c a l, lt_asym c a)

insert_ip-IsSorted : (a : IpAddr) (l : List IpAddr) → IsSorted l → IsSorted (insert_ip a l)
unfolding insert_ip
insert_ip-IsSorted a [] s = tt
insert_ip-IsSorted a (c ∷ l) s = ground (arith, From-insert_ip c a l, lt_asym c a)

sort_ips-IsSorted : (l : List IpAddr) → IsSorted (sort_ips l)
unfolding sort_ips
sort_ips-IsSorted [] = tt
sort_ips-IsSorted (a ∷ l) = insert_ip-IsSorted a (sort_ips l) (sort_ips-IsSorted l)

Above-dedup_after : (a : IpAddr) (l : List IpAddr) → From a l → Above a (dedup_after a l)
unfolding dedup_after
Above-dedup_after a [] s = tt
Above-dedup_after a (b ∷ l) s = elim (Bool-cases (a == b)) [
  | inl t ↦ rw t (Above-dedup_after a l (subst (λ c. From c l) (sym ((ip_beq_iff a b).0 t)) s.1))
  | inr f ↦
      let f' = ne→beq b a (λ e. cc (beq_self a)) in
      rw f (lt_total b a s.0 f', Above-dedup_after b l s.1)
]

dedup_ips-Ascending : (l : List IpAddr) → IsSorted l → Ascending (dedup_ips l)
unfolding dedup_ips
dedup_ips-Ascending [] s = tt
dedup_ips-Ascending (a ∷ l) s = Above-dedup_after a l s

contains-insert_ip :
    (a : IpAddr) (l : List IpAddr) (x : IpAddr)
    → contains (insert_ip a l) x ≡ ((a == x) || contains l x)
unfolding insert_ip
contains-insert_ip a [] x = refl
contains-insert_ip a (b ∷ l) x = ground (arith, contains-insert_ip a l x)

contains-sort_ips : (l : List IpAddr) (x : IpAddr) → contains (sort_ips l) x ≡ contains l x
unfolding sort_ips
contains-sort_ips [] x = refl
contains-sort_ips (a ∷ l) x =
    ground (arith, contains-insert_ip a (sort_ips l) x, contains-sort_ips l x)

contains-dedup_after :
    (a : IpAddr) (l : List IpAddr) (x : IpAddr)
    → ((a == x) || contains (dedup_after a l) x) ≡ ((a == x) || contains l x)
unfolding dedup_after
contains-dedup_after a [] x = refl
contains-dedup_after a (b ∷ l) x =
    ground (arith, ip_beq_iff a b, contains-dedup_after a l x, contains-dedup_after b l x)

contains-address_set : (l : List IpAddr) (x : IpAddr) → contains (address_set l) x ≡ contains l x
unfolding address_set
contains-address_set l x = dedup (sort_ips l) ∙ contains-sort_ips l x
  where
    dedup : (l : List IpAddr) → contains (dedup_ips l) x ≡ contains l x
    dedup [] = refl
    dedup (a ∷ l) = contains-dedup_after a l x

address_set-Ascending : (l : List IpAddr) → Ascending (address_set l)
unfolding address_set
address_set-Ascending l = dedup_ips-Ascending (sort_ips l) (sort_ips-IsSorted l)

beq_sym : (a b : IpAddr) → (a == b) ≡ false → (b == a) ≡ false
beq_sym (v4 a) (v4 b) h = ground arith
beq_sym (v4 a) (v6 b) h = ground arith
beq_sym (v6 a) (v4 b) h = ground arith
beq_sym (v6 a) (v6 b) h = ground arith

-- An address below an ascending list is not in it.
absent_below :
    (x b : IpAddr) (l : List IpAddr) → ip_ltb x b ≡ true → Above b l → contains (b ∷ l) x ≡ false
absent_below x b [] h s = ground (arith, beq_sym x b (lt_irrefl x b h))
absent_below x b (c ∷ l) h s =
    ground (arith, beq_sym x b (lt_irrefl x b h), absent_below x c l (lt_trans x b c h s.0) s.1)

absent_head : (a : IpAddr) (l : List IpAddr) → Above a l → contains l a ≡ false
absent_head a [] s = refl
absent_head a (b ∷ l) s = absent_below a b l s.0 s.1

Above-Ascending : (a : IpAddr) (l : List IpAddr) → Above a l → Ascending l
Above-Ascending a [] s = tt
Above-Ascending a (b ∷ l) s = s.1

-- Two ascending lists with the same members have the same head.
same_head :
    (a b : IpAddr) (xs ys : List IpAddr)
    → Above a xs
    → Above b ys
    → SameMembers (a ∷ xs) (b ∷ ys)
    → a ≡ b
same_head a b xs ys p q same = elim (Bool-cases (a == b)) [
  | inl t ↦ (ip_beq_iff a b).0 t
  | inr f ↦ elim (Bool-cases (ip_ltb a b)) [
    | inl lt ↦ ground (arith, same a, beq_self a, absent_below a b ys lt q)
    | inr ge ↦ ground (arith, same b, beq_self b, absent_below b a xs (lt_total a b ge f) p)
  ]
]

Ascending-unique : (xs ys : List IpAddr) → Ascending xs → Ascending ys → SameMembers xs ys → xs ≡ ys
Ascending-unique [] [] p q same = refl
Ascending-unique [] (b ∷ ys) p q same = ground (arith, same b, beq_self b)
Ascending-unique (a ∷ xs) [] p q same = ground (arith, same a, beq_self a)
Ascending-unique (a ∷ xs) (b ∷ ys) p q same =
    let head = same_head a b xs ys p q same in
    let q' = subst (λ c. Above c ys) (sym head) q in
    let tails : SameMembers xs ys = λ x. elim (Bool-cases (a == x)) [
      | inl t ↦
          let e = (ip_beq_iff a x).0 t in
          subst (λ c. contains xs c ≡ contains ys c) e
            (absent_head a xs p ∙ sym (absent_head a ys q'))
      | inr f ↦ ground (arith, same x, head)
    ] in
    cc (head, Ascending-unique xs ys (Above-Ascending a xs p) (Above-Ascending a ys q') tails)

-- Two lists of addresses, as resolvers return them, give one set exactly when they hold the same
-- addresses, in whatever order and however often.
pub address_set_iff : (xs ys : List IpAddr) → (address_set xs ≡ address_set ys) ↔ SameMembers xs ys
address_set_iff xs ys = (
  (λ e x. sym (contains-address_set xs x) ∙ ap (λ l. contains l x) e ∙ contains-address_set ys x),
  λ same.
      Ascending-unique (address_set xs) (address_set ys) (address_set-Ascending xs)
        (address_set-Ascending ys)
        (λ x. contains-address_set xs x ∙ same x ∙ sym (contains-address_set ys x)),
)
