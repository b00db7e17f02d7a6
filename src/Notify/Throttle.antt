-- ===== src/Notify/Throttle.antt =====
-- `Throttle` of `src/notify.rs`: a rate limiter for each key that counts what it holds back. Instants
-- and windows are in milliseconds; `duration_since` saturates.
pub mod Windows
pub mod Pending
use rfw.Text.{Text}
use rfw.Base.{
  List, Option, [], if◌then◌else◌, keep_if, list_eq, ltb, nat_eq, none, some, ℕ, ◌+◌, ◌-◌, ◌==◌,
  ◌∷◌,
}

pub record ThrottleEntry : Type 0 where
  pub last_sent : ℕ
  pub suppressed : ℕ

-- The hash map, as an association list.
abbrev pub Throttle : Type 0
Throttle = List (Text × ThrottleEntry)

pub data Admit : Type 0 where
  send : ℕ → Admit
  suppress : Admit

unfoldable pub get : Text → Throttle → Option ThrottleEntry
get key [] = none
get key ((k, e) ∷ t) = if k == key then some e else get key t

-- A write through `get_mut`, or `insert`.
put : Text → ThrottleEntry → Throttle → Throttle
put key e [] = (key, e) ∷ []
put key e ((k, d) ∷ t) = if k == key then (k, e) ∷ t else (k, d) ∷ put key e t

admit_entry : Text → ℕ → ℕ → Throttle → Option ThrottleEntry → Throttle × Admit
unfolding put
admit_entry key window now t none = (put key (record { last_sent = now; suppressed = 0 }) t, send 0)
admit_entry key window now t (some e) =
    if ltb (now - e.last_sent) window
    then (put key (record e { suppressed = e.suppressed + 1 }) t, suppress)
    else (put key (record { last_sent = now; suppressed = 0 }) t, send e.suppressed)

unfoldable pub admit : Text → ℕ → ℕ → Throttle → Throttle × Admit
unfolding admit_entry
admit key window now t = admit_entry key window now t (get key t)

unfoldable pub prune : ℕ → ℕ → Throttle → Throttle
prune now max_idle t = keep_if (λ e. ltb (now - e.1.last_sent) max_idle) t
