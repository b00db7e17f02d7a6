-- ===== src/Tcp/Limit.antt =====
-- The connections of a forwarder and their permits.

use rfw.Base.{Option, arith, if_both, none, some, subst, suc, zero, ℕ, ◌+◌, ◌-◌, ◌<◌, ◌≡◌}
use rfw.Stats.{dec_connections, inc_connections, inc_rejected, u64_max}
use rfw.Tcp.{Acceptor, acquire_permit, after_admission, is_due, on_accept, task_ended, task_started}

-- The permits, if there is a limit of `total`.
abbrev pub Permits : ℕ → Acceptor → Option ℕ → Type 0
Permits total a none = Unit
Permits total a (some n) = n + a.elsewhere + a.starting + a.running ≡ total

abbrev pub IsAcceptor : ℕ → Acceptor → Type 0
IsAcceptor total a =
    Permits total a a.conn_limit × (a.stats.active_connections ≡ a.running) × (a.running < u64_max)

-- What happens to a forwarder that listens. A process has fewer tasks than 2^64, and its forwarders
-- share the permits.
pub data AcceptStep : Acceptor → Acceptor → Type 0 where
  an_accept : {a : Acceptor} (now : ℕ) → AcceptStep a (on_accept now a)
  a_start :
      {a : Acceptor} → 0 < a.starting → a.running + 1 < u64_max → AcceptStep a (task_started a)
  an_end : {a : Acceptor} → 0 < a.running → AcceptStep a (task_ended a)
  taken_elsewhere :
      {a : Acceptor} {n : ℕ}
      → a.conn_limit ≡ some (suc n)
      → AcceptStep a (record a { conn_limit = some n; elsewhere = a.elsewhere + 1 })
  given_back_elsewhere :
      {a : Acceptor} {n : ℕ}
      → a.conn_limit ≡ some n
      → 0 < a.elsewhere
      → AcceptStep a (record a { conn_limit = some (n + 1); elsewhere = a.elsewhere - 1 })

pub data Accepts : Acceptor → Acceptor → Type 0 where
  no_accept : {a : Acceptor} → Accepts a a
  then_accept : {a b c : Acceptor} → Accepts a b → AcceptStep b c → Accepts a c

-- The permits depend on the number of tasks.
Permits-same :
    (total : ℕ) (a b : Acceptor) (limit : Option ℕ)
    → b.elsewhere + b.starting + b.running ≡ a.elsewhere + a.starting + a.running
    → Permits total a limit
    → Permits total b limit
Permits-same total a b none same h = tt
Permits-same total a b (some n) same h = omega (arith, same, h)

Permits-back :
    (total : ℕ) (a b : Acceptor) (limit : Option ℕ)
    → suc (b.elsewhere + b.starting + b.running) ≡ a.elsewhere + a.starting + a.running
    → Permits total a limit
    → Permits total b (elim limit [ none ↦ none | some n ↦ some (n + 1) ])
Permits-back total a b none same h = tt
Permits-back total a b (some n) same h = omega (arith, same, h)

after_admission-IsAcceptor :
    (total now : ℕ) (a : Acceptor) (limit : Option ℕ)
    → Permits total a limit
    → a.stats.active_connections ≡ a.running
    → a.running < u64_max
    → IsAcceptor total (after_admission now a (acquire_permit limit a.stats))
unfolding after_admission acquire_permit inc_rejected
after_admission-IsAcceptor total now a none h active few = (tt, active, few)
after_admission-IsAcceptor total now a (some zero) h active few =
    if_both (IsAcceptor total) (is_due a.last_limit_alert now) _ _ (h, active, few) (h, active, few)
after_admission-IsAcceptor total now a (some (suc n)) h active few = (omega (arith, h), active, few)

AcceptStep-IsAcceptor :
    (total : ℕ) {a b : Acceptor} → AcceptStep a b → IsAcceptor total a → IsAcceptor total b
unfolding on_accept task_started task_ended inc_connections dec_connections
AcceptStep-IsAcceptor total {a} (an_accept now) (permits, active, few) =
    after_admission-IsAcceptor total now a a.conn_limit permits active few
AcceptStep-IsAcceptor total {a} (a_start some_there room) (permits, active, few) = (
  Permits-same total a (task_started a) a.conn_limit (omega (arith, some_there)) permits,
  omega (arith, active, room),
  omega (arith, room),
)
AcceptStep-IsAcceptor total {a} (an_end some_there) (permits, active, few) = (
  Permits-back total a (task_ended a) a.conn_limit (omega (arith, some_there)) permits,
  omega (arith, active, some_there, few),
  omega (arith, few),
)
AcceptStep-IsAcceptor total {a} (taken_elsewhere free) (permits, active, few) =
    (omega (arith, subst (Permits total a) free permits), active, few)
AcceptStep-IsAcceptor total {a} (given_back_elsewhere free held) (permits, active, few) =
    (omega (arith, held, subst (Permits total a) free permits), active, few)

-- Over any run of a forwarder that listens, with fewer running tasks than 2^64, and of others that
-- take and return permits of the same limit: each connection that
-- was let in, started or not, holds a permit of the limit, if there is one, and the forwarder counts
-- exactly the running tasks as active connections.
pub Accepts-IsAcceptor :
    (total : ℕ) {a b : Acceptor} → IsAcceptor total a → Accepts a b → IsAcceptor total b
Accepts-IsAcceptor total h no_accept = h
Accepts-IsAcceptor total h (then_accept run step) =
    AcceptStep-IsAcceptor total step (Accepts-IsAcceptor total h run)
