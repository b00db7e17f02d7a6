-- ===== src/Udp/Engine/Table.antt =====
-- Looking up, replacing and removing the entry of a client.

use rfw.Net.{SocketAddr, ip_eq}
use rfw.Base.{
  All, Bool-cases, Distinct, Distinct-push, List, [], ap, arith, false, inl, inr, keep_if, length,
  list_eq, map, nat_eq, ne→beq, none, not, refl, some, subst, suc, sym, ◌++◌, ◌+◌, ◌==◌, ◌∙◌, ◌∷◌,
  ◌≡◌, ◌≢◌,
}
use rfw.Udp.Session.{SessionEntry}
use rfw.Udp.Engine.{addr_beq_iff, addr_eq, entry_of, put_entry}

-- One entry more, or the same clients.
abbrev pub PutEntry : SessionEntry → List SessionEntry → Type 0
PutEntry e es =
    (length (put_entry e es) ≡ length es)
    × (map (λ x. x.shared.client) (put_entry e es) ≡ map (λ x. x.shared.client) es)

pub PutEntry-known :
    (e old : SessionEntry) (es : List SessionEntry)
    → entry_of es e.shared.client ≡ some old
    → PutEntry e es
unfolding entry_of put_entry
PutEntry-known e old [] h = absurd (ground (arith, h))
PutEntry-known e old (x ∷ es) h = elim (Bool-cases (x.shared.client == e.shared.client)) [
  | inl t ↦
      let same : x.shared.client ≡ e.shared.client =
        (addr_beq_iff x.shared.client e.shared.client).0 t in
      rw (put_entry, t) (refl, ap (λ c. c ∷ map (λ y. y.shared.client) es) (sym same))
  | inr f ↦
      let (a, b) = PutEntry-known e old es (ground (arith, h, f)) in
      rw (put_entry, f) (ap suc a, ap (λ l. x.shared.client ∷ l) b)
]

pub put_entry-fresh :
    (e : SessionEntry) (es : List SessionEntry)
    → entry_of es e.shared.client ≡ none
    → put_entry e es ≡ es ++ e ∷ []
unfolding entry_of put_entry
put_entry-fresh e [] h = refl
put_entry-fresh e (x ∷ es) h = elim (Bool-cases (x.shared.client == e.shared.client)) [
  | inl t ↦ absurd (ground (arith, h, t))
  | inr f ↦ rw f (ap (λ l. x ∷ l) (put_entry-fresh e es (ground (arith, h, f))))
]

pub entry_of-client :
    (es : List SessionEntry) (c : SocketAddr) (e : SessionEntry)
    → entry_of es c ≡ some e
    → e.shared.client ≡ c
unfolding entry_of
entry_of-client [] c e h = absurd (ground (arith, h))
entry_of-client (x ∷ es) c e h = elim (Bool-cases (x.shared.client == c)) [
  | inl t ↦
      let same : x ≡ e = ground (arith, h, t) in
      ap (λ y. y.shared.client) (sym same) ∙ (addr_beq_iff x.shared.client c).0 t
  | inr f ↦ entry_of-client es c e (ground (arith, h, f))
]

pub entry_of-none :
    (es : List SessionEntry) (c : SocketAddr)
    → entry_of es c ≡ none
    → All (λ k. k ≢ c) (map (λ x. x.shared.client) es)
unfolding entry_of
entry_of-none [] c h = tt
entry_of-none (x ∷ es) c h = elim (Bool-cases (x.shared.client == c)) [
  | inl t ↦ absurd (ground (arith, h, t))
  | inr f ↦
      (ground (arith, f, addr_beq_iff x.shared.client c), entry_of-none es c (ground (arith, h, f)))
]

-- Removing a client.
abbrev pub others : SocketAddr → List SessionEntry → List SessionEntry
others c es = keep_if (λ e. not (e.shared.client == c)) es

others-fresh :
    (es : List SessionEntry) (c : SocketAddr)
    → All (λ k. c ≢ k) (map (λ x. x.shared.client) es)
    → others c es ≡ es
others-fresh [] c h = refl
others-fresh (x ∷ es) c h =
    let differs : (x.shared.client == c) ≡ false =
      ne→beq x.shared.client c (λ same. h.0 (sym same)) in
    rw differs (ap (λ l. x ∷ l) (others-fresh es c h.1))

pub length-others :
    (es : List SessionEntry) (c : SocketAddr) (e : SessionEntry)
    → Distinct (map (λ x. x.shared.client) es)
    → entry_of es c ≡ some e
    → length (others c es) + 1 ≡ length es
unfolding entry_of
length-others [] c e d h = absurd (ground (arith, h))
length-others (x ∷ es) c e d h = elim (Bool-cases (x.shared.client == c)) [
  | inl t ↦
      let same : x.shared.client ≡ c = (addr_beq_iff x.shared.client c).0 t in
      rw
        (
          t,
          others-fresh es c
              (subst (λ k. All (λ l. k ≢ l) (map (λ y. y.shared.client) es)) same d.0),
        )
        (omega arith)
  | inr f ↦ rw f (omega (arith, length-others es c e d.1 (ground (arith, h, f))))
]

pub entry_of-others : (es : List SessionEntry) (c : SocketAddr) → entry_of (others c es) c ≡ none
unfolding entry_of
entry_of-others [] c = refl
entry_of-others (x ∷ es) c = elim (Bool-cases (x.shared.client == c)) [
  | inl t ↦ rw t (entry_of-others es c)
  | inr f ↦ rw (f, entry_of, f) (entry_of-others es c)
]

map-snoc :
    (es : List SessionEntry) (e : SessionEntry)
    → map (λ x. x.shared.client) (es ++ e ∷ [])
      ≡ map (λ x. x.shared.client) es ++ e.shared.client ∷ []
map-snoc [] e = refl
map-snoc (x ∷ es) e = ap (λ l. x.shared.client ∷ l) (map-snoc es e)

pub Distinct-put_entry :
    (e : SessionEntry) (es : List SessionEntry)
    → entry_of es e.shared.client ≡ none
    → Distinct (map (λ x. x.shared.client) es)
    → Distinct (map (λ x. x.shared.client) (put_entry e es))
Distinct-put_entry e es absent d =
    rw (put_entry-fresh e es absent, map-snoc es e)
      (Distinct-push (map (λ x. x.shared.client) es) e.shared.client d
        (entry_of-none es e.shared.client absent))
