-- ===== src/Udp/Refresh/Current.antt =====
-- The addresses that the sessions of a forwarder get.

use rfw.Text.{Text}
use rfw.Base.{
  Bool, Bool-cases, List, Result, [], ap, arith, contains, err, inl, inr, list_beq_iff, list_eq,
  nat_eq, none, ok, refl, sym, true, ℕ, ◌==◌, ◌||◌, ◌∙◌, ◌∷◌, ◌≡◌,
}
use rfw.Net.{SocketAddr, ip_eq}
use rfw.Tcp.Connect.{Lookup, ResolveError, resolve_targets}
use rfw.Udp.Engine.{addr_beq_iff, addr_eq}
use rfw.Udp.Refresh.{
  Refresher, addr_ltb, dedup_addrs, dedup_addrs_after, insert_addr, publish, refresh, refreshed,
  run_dns_refresher, same_addr_set, sort_addrs,
}

abbrev pub SameAddrs : List SocketAddr → List SocketAddr → Type 0
SameAddrs xs ys = (a : SocketAddr) → contains xs a ≡ contains ys a

or-swap : (a b c : Bool) → (a || (b || c)) ≡ (b || (a || c))
or-swap a b c = ground arith

or-again : (a b : Bool) → (a || (a || b)) ≡ (a || b)
or-again a b = ground arith

contains-insert_addr :
    (a : SocketAddr) (l : List SocketAddr) (x : SocketAddr)
    → contains (insert_addr a l) x ≡ ((a == x) || contains l x)
unfolding insert_addr
contains-insert_addr a [] x = refl
contains-insert_addr a (b ∷ l) x =
    let swap = or-swap (b == x) (a == x) (contains l x) in
    elim (Bool-cases (addr_ltb b a)) [
      | inl t ↦ rw t (ap (λ c. (b == x) || c) (contains-insert_addr a l x) ∙ swap)
      | inr f ↦ rw f refl
    ]

contains-sort_addrs : (l : List SocketAddr) → SameAddrs (sort_addrs l) l
unfolding sort_addrs
contains-sort_addrs [] x = refl
contains-sort_addrs (a ∷ l) x =
    contains-insert_addr a (sort_addrs l) x ∙ ap (λ b. (a == x) || b) (contains-sort_addrs l x)

contains-dedup_after :
    (a : SocketAddr) (l : List SocketAddr) (x : SocketAddr)
    → ((a == x) || contains (dedup_addrs_after a l) x) ≡ ((a == x) || contains l x)
unfolding dedup_addrs_after
contains-dedup_after a [] x = refl
contains-dedup_after a (b ∷ l) x = elim (Bool-cases (a == b)) [
  | inl t ↦
      let same = (addr_beq_iff a b).0 t in
      rw t (
        contains-dedup_after a l x
        ∙ sym (or-again (a == x) (contains l x))
        ∙ ap (λ c. (a == x) || ((c == x) || contains l x)) same)
  | inr f ↦ rw f (ap (λ c. (a == x) || c) (contains-dedup_after b l x))
]

contains-dedup_addrs : (l : List SocketAddr) → SameAddrs (dedup_addrs l) l
unfolding dedup_addrs
contains-dedup_addrs [] x = refl
contains-dedup_addrs (a ∷ l) x = contains-dedup_after a l x

same_addr_set-SameAddrs : (a b : List SocketAddr) → same_addr_set a b ≡ true → SameAddrs a b
unfolding same_addr_set
same_addr_set-SameAddrs a b h x =
    let members =
      λ (l : List SocketAddr). contains-dedup_addrs (sort_addrs l) x ∙ contains-sort_addrs l x in
    let equal = (list_beq_iff (dedup_addrs (sort_addrs a)) (dedup_addrs (sort_addrs b))).0 h in
    sym (members a) ∙ ap (λ l. contains l x) equal ∙ members b

abbrev pub found_or : List SocketAddr → Result ResolveError (List SocketAddr) → List SocketAddr
found_or start (err e) = start
found_or start (ok addrs) = addrs

-- The last addresses that a lookup found, or those at the start.
abbrev pub latest : ℕ → List Lookup → List SocketAddr → List SocketAddr
latest port [] start = start
latest port (lookup ∷ lookups) start =
    latest port lookups (found_or start (resolve_targets port none lookup))

publish-SameAddrs :
    (addrs : List SocketAddr) (r : Refresher) → SameAddrs (publish addrs r).published addrs
publish-SameAddrs addrs r = elim (Bool-cases (same_addr_set r.published addrs)) [
  | inl t ↦ rw t (same_addr_set-SameAddrs r.published addrs t)
  | inr f ↦ rw f (λ x. refl)
]

-- What is published has the members of `start`.
abbrev Current : List SocketAddr → Refresher → Type 0
Current start r = SameAddrs r.published start

refreshed-Current :
    (label host : Text) (found : Result ResolveError (List SocketAddr)) (start : List SocketAddr)
    (r : Refresher)
    → Current start r
    → Current (found_or start found) (refreshed label host found r)
unfolding refreshed
refreshed-Current label host (err e) start r h = h
refreshed-Current label host (ok addrs) start r h = publish-SameAddrs addrs _

-- After any lookups, the addresses that the sessions get are those of the last lookup that found any,
-- and those at the start if none did: a failed lookup takes none away.
pub run_dns_refresher_lem :
    (label host : Text) (port : ℕ) (lookups : List Lookup) (start : List SocketAddr) (r : Refresher)
    → SameAddrs r.published start
    → SameAddrs (run_dns_refresher label host port lookups r).published (latest port lookups start)
unfolding run_dns_refresher refresh
run_dns_refresher_lem label host port [] start r h = h
run_dns_refresher_lem label host port (lookup ∷ lookups) start r h =
    let found = resolve_targets port none lookup in
    run_dns_refresher_lem label host port lookups (found_or start found)
      (refreshed label host found r) (refreshed-Current label host found start r h)
