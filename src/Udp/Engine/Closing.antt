-- ===== src/Udp/Engine/Closing.antt =====
-- The sessions that the engine closes.

use rfw.Net.{ip_eq}
use rfw.Base.{
  Bool, Bool-cases, List, [], ap, arith, contains, false, get_elem?, inl, inr, keep_if, list_eq,
  nat_eq, refl, some, subst, suc, sym, true, zero, ℕ, ◌-◌, ◌<◌, ◌↔◌, ◌∙◌, ◌∷◌, ◌≡◌,
}
use rfw.Udp.Session.{SessionEntry}
use rfw.Udp.Engine.{Engine, addr_eq, is_live, on_targets_changed, retain, sweep}
use rfw.Udp.Engine.Invariant.{retain-sessions}

-- A session is in the table.
abbrev pub Holds : SessionEntry → List SessionEntry → Type 0
Holds e es = (i : ℕ) × (get_elem? es i ≡ some e)

keep_if-Holds :
    (p : SessionEntry → Bool) (es : List SessionEntry) (e : SessionEntry)
    → Holds e es
    → p e ≡ true
    → Holds e (keep_if p es)
keep_if-Holds p [] e (i, at) h = absurd (ground (arith, at))
keep_if-Holds p (x ∷ es) e (zero, at) h =
    let same : x ≡ e = ground (arith, at) in
    let t : p x ≡ true = ap p same ∙ h in rw t (0, ap some same)
keep_if-Holds p (x ∷ es) e (suc i, at) h =
    let (j, at') = keep_if-Holds p es e (i, at) h in
    elim (Bool-cases (p x)) [ inl t ↦ rw t (suc j, at') | inr f ↦ rw f (j, at') ]

kept_first :
    (p : SessionEntry → Bool) (x : SessionEntry) (es : List SessionEntry) (e : SessionEntry)
    → p x ≡ true
    → (Holds e (keep_if p es) → Holds e es × (p e ≡ true))
    → Holds e (x ∷ keep_if p es)
    → Holds e (x ∷ es) × (p e ≡ true)
kept_first p x es e t more (zero, at) =
    let same : x ≡ e = ground (arith, at) in ((0, at), ap p (sym same) ∙ t)
kept_first p x es e t more (suc i, at) =
    let ((j, at'), stays) = more (i, at) in ((suc j, at'), stays)

Holds-keep_if :
    (p : SessionEntry → Bool) (es : List SessionEntry) (e : SessionEntry)
    → Holds e (keep_if p es)
    → Holds e es × (p e ≡ true)
Holds-keep_if p [] e (i, at) = absurd (ground (arith, at))
Holds-keep_if p (x ∷ es) e h = elim (Bool-cases (p x)) [
  | inl t ↦
      let first : keep_if p (x ∷ es) ≡ x ∷ keep_if p es = rw t refl in
      kept_first p x es e t (Holds-keep_if p es e) (subst (Holds e) first h)
  | inr f ↦
      let later : keep_if p (x ∷ es) ≡ keep_if p es = rw f refl in
      let ((j, at), stays) = Holds-keep_if p es e (subst (Holds e) later h) in ((suc j, at), stays)
]

-- `retain` leaves exactly the entries that are to be kept.
retain-Holds :
    (p : SessionEntry → Bool) (g : Engine) (e : SessionEntry)
    → Holds e (retain p g).sessions ↔ (Holds e g.sessions × (p e ≡ true))
retain-Holds p g e =
    rw (retain-sessions p g)
      (Holds-keep_if p g.sessions e, λ h. keep_if-Holds p g.sessions e h.0 h.1)

-- After a change of the target's addresses the table holds exactly the sessions that it held and
-- whose target is one of the published addresses.
pub on_targets_changed_lem :
    (g : Engine) (e : SessionEntry)
    → Holds e (on_targets_changed g).sessions
      ↔ (Holds e g.sessions × (contains g.targets e.shared.remote ≡ true))
unfolding on_targets_changed
on_targets_changed_lem g e = retain-Holds (λ x. contains g.targets x.shared.remote) g e

-- After a sweep the table holds exactly the sessions that it held, that are not dead, and that saw a
-- datagram less than the timeout ago.
pub sweep_lem :
    (timeout_ms now_ms : ℕ) (g : Engine) (e : SessionEntry)
    → Holds e (sweep timeout_ms now_ms g).sessions ↔ (
        Holds e g.sessions
        × (e.shared.dead ≡ false)
        × (now_ms - e.shared.last_activity_ms < timeout_ms))
unfolding sweep is_live
sweep_lem timeout_ms now_ms g e =
    let (there, back) = retain-Holds (is_live timeout_ms now_ms) g e in
    (
      λ h. ((there h).0, ground (arith, (there h).1), ground (arith, (there h).1)),
      λ h. back (h.0, ground (arith, h.1, h.2)),
    )
