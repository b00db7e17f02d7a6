-- ===== src/Udp/Engine/Invariant.antt =====
-- The sockets, permits and clients of the engine.

use rfw.Net.{SocketAddr}
use rfw.Base.{
  All, Bool, Bool-cases, Distinct, List, [], arith, inl, inr, keep_if, length, map, not, refl, suc,
  ℕ, ◌+◌, ◌∙◌, ◌∷◌, ◌≡◌, ◌≢◌, ◌≤◌,
}
use rfw.Stats.{dec_connections, u64_max}
use rfw.Udp.Session.{SessionEntry}
use rfw.Udp.Engine.{Engine, close_entries, close_entry, retain}

abbrev pub clients : Engine → List SocketAddr
clients g = map (λ e. e.shared.client) g.sessions

-- The sockets to targets.
abbrev pub sockets : Engine → ℕ
sockets g = length g.sessions + length g.closing

-- Each socket holds one of the `total` permits and counts as one active connection, and a client has
-- one session at most.
pub record IsEngine (total : ℕ) (g : Engine) : Type 0 where
  pub permits : g.udp_limit + g.elsewhere + sockets g ≡ total
  pub active : g.stats.active_connections ≡ sockets g
  pub one_each : Distinct (clients g)

-- Permits and connections while `held` sockets are in neither list.
abbrev pub Accounts : ℕ → ℕ → Engine → Type 0
Accounts total held g =
    (g.udp_limit + g.elsewhere + sockets g + held ≡ total)
    × (g.stats.active_connections ≡ sockets g + held)

module _ (total : ℕ) (bound : total ≤ u64_max) where
  pub close_entry-Accounts :
      (e : SessionEntry) (g : Engine) (held : ℕ)
      → Accounts total (suc held) g
      → Accounts total held (close_entry e g)
  unfolding close_entry dec_connections
  close_entry-Accounts e g held h = ground (arith, h, bound)

  pub close_entries-Accounts :
      (es : List SessionEntry) (g : Engine) (held : ℕ)
      → Accounts total (length es + held) g
      → Accounts total held (close_entries es g)
  unfolding close_entries
  close_entries-Accounts [] g held h = (omega (arith, h.0), omega (arith, h.1))
  close_entries-Accounts (e ∷ es) g held h =
      close_entries-Accounts es (close_entry e g) held
        (close_entry-Accounts e g (length es + held) (omega (arith, h.0), omega (arith, h.1)))

pub close_entries-sessions :
    (es : List SessionEntry) (g : Engine) → (close_entries es g).sessions ≡ g.sessions
unfolding close_entries close_entry
close_entries-sessions [] g = refl
close_entries-sessions (e ∷ es) g = close_entries-sessions es (close_entry e g) ∙ ground arith

pub length-keep_if :
    (p : SessionEntry → Bool) (es : List SessionEntry)
    → length (keep_if p es) + length (keep_if (λ e. not (p e)) es) ≡ length es
length-keep_if p [] = omega arith
length-keep_if p (e ∷ es) = elim (Bool-cases (p e)) [
  | inl t ↦ rw t (omega (arith, length-keep_if p es))
  | inr f ↦ rw f (omega (arith, length-keep_if p es))
]

pub fresh-keep_if :
    (p : SessionEntry → Bool) (c : SocketAddr) (es : List SessionEntry)
    → All (λ k. c ≢ k) (map (λ e. e.shared.client) es)
    → All (λ k. c ≢ k) (map (λ e. e.shared.client) (keep_if p es))
fresh-keep_if p c [] h = tt
fresh-keep_if p c (e ∷ es) h = elim (Bool-cases (p e)) [
  | inl t ↦ rw t (h.0, fresh-keep_if p c es h.1)
  | inr f ↦ rw f (fresh-keep_if p c es h.1)
]

pub Distinct-keep_if :
    (p : SessionEntry → Bool) (es : List SessionEntry)
    → Distinct (map (λ e. e.shared.client) es)
    → Distinct (map (λ e. e.shared.client) (keep_if p es))
Distinct-keep_if p [] h = tt
Distinct-keep_if p (e ∷ es) h = elim (Bool-cases (p e)) [
  | inl t ↦ rw t (fresh-keep_if p e.shared.client es h.0, Distinct-keep_if p es h.1)
  | inr f ↦ rw f (Distinct-keep_if p es h.1)
]

-- `retain` keeps the entries that it should, and all it closes is accounted for.
pub retain-sessions :
    (keep : SessionEntry → Bool) (g : Engine) → (retain keep g).sessions ≡ keep_if keep g.sessions
unfolding retain
retain-sessions keep g =
    close_entries-sessions (keep_if (λ e. not (keep e)) g.sessions)
      (record g { sessions = keep_if keep g.sessions })

pub retain-IsEngine :
    (total : ℕ) (keep : SessionEntry → Bool) (g : Engine)
    → total ≤ u64_max
    → IsEngine total g
    → IsEngine total (retain keep g)
unfolding retain
retain-IsEngine total keep g bound wf =
    let gone = keep_if (λ e. not (keep e)) g.sessions in
    let g' = record g { sessions = keep_if keep g.sessions } in
    let sum = length-keep_if keep g.sessions in
    let (permits, active) =
      close_entries-Accounts total bound gone g' 0
        (omega (arith, sum, wf.permits), omega (arith, sum, wf.active)) in
    record {
      permits = omega (arith, permits);
      active = omega (arith, active);
      one_each = rw (retain-sessions keep g) (Distinct-keep_if keep g.sessions wf.one_each);
    }
