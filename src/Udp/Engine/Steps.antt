-- ===== src/Udp/Engine/Steps.antt =====
-- What happens to an engine while it runs: the branches of `Engine::run`, the sessions' tasks, the
-- refresher and the other forwarders, in any order.

use rfw.Text.{split}
use rfw.Net.{SocketAddr, ip_eq}
use rfw.Base.{
  Distinct, List, [], ap, arith, contains, false, get_elem?, length, length-append, list_eq, map,
  nat_eq, refl, some, subst, suc, sym, zero, ℕ, ◌++◌, ◌+◌, ◌-◌, ◌<◌, ◌∙◌, ◌∷◌, ◌≡◌, ◌≤◌,
}
use rfw.Stats.{ForwarderStats, dec_connections, u64_max}
use rfw.Udp.Chunks.{Bytes}
use rfw.Udp.Errors.{Batch}
use rfw.Udp.Session.{SessionEntry, SessionShared}
use rfw.Udp.Replies.{Draining, Replying, drain_upstream}
use rfw.Udp.Replies.Counters.{drain_upstream-client}
use rfw.Udp.Engine.{
  Engine, addr_eq, close_all, is_live, on_client_buffer, on_targets_changed, sweep,
}
use rfw.Udp.Engine.Invariant.{
  IsEngine, close_entries-Accounts, close_entries-sessions, retain-IsEngine,
}
use rfw.Udp.Engine.Serving.{on_client_buffer-IsEngine}

-- One entry is changed.
abbrev pub change_at : ℕ → (SessionEntry → SessionEntry) → List SessionEntry → List SessionEntry
change_at i f [] = []
change_at zero f (e ∷ es) = f e ∷ es
change_at (suc i) f (e ∷ es) = e ∷ change_at i f es

-- A wake-up of a session's task.
abbrev woken : ℕ → Replying → ForwarderStats → SessionShared → Draining
woken now_ms r s shared =
    (drain_upstream now_ms (record { replying = r; replied = false; shared = shared; stats = s })).0

abbrev on_wake : ℕ → Replying → ForwarderStats → SessionEntry → SessionEntry
on_wake now_ms r s e = record e { shared = (woken now_ms r s e.shared).shared }

-- `g` goes to `g'`. Every branch of the loop is one step.
pub data Step : Engine → Engine → Type 0 where
  a_buffer :
      {g : Engine} (client : SocketAddr) (buf : Bytes) (segment now_ms now : ℕ) (b : Batch)
      → Step g (on_client_buffer client buf segment now_ms now g b).0
  a_sweep : {g : Engine} (timeout_ms now_ms : ℕ) → Step g (sweep timeout_ms now_ms g)
  published : {g : Engine} (addrs : List SocketAddr) → Step g (record g { targets = addrs })
  targets_changed : {g : Engine} → Step g (on_targets_changed g)
  all_closed : {g : Engine} → Step g (close_all g)
  a_wake :
      {g : Engine} (i : ℕ) (e : SessionEntry) (now_ms : ℕ) (r : Replying)
      → get_elem? g.sessions i ≡ some e
      → Step g (record g {
        sessions = change_at i (on_wake now_ms r g.stats) g.sessions;
        stats = (woken now_ms r g.stats e.shared).stats;
      })
  task_ended :
      {g : Engine} (i : ℕ)
      → Step g (record g { sessions = change_at i (λ e. record e { task = false }) g.sessions })
  socket_closed :
      {g : Engine} (s : SessionShared) (before after : List SessionShared)
      → g.closing ≡ before ++ s ∷ after
      → Step g (record g {
        closing = before ++ after;
        udp_limit = g.udp_limit + 1;
        stats = dec_connections g.stats;
      })
  taken_elsewhere :
      {g : Engine}
      → 0 < g.udp_limit
      → Step g (record g { udp_limit = g.udp_limit - 1; elsewhere = g.elsewhere + 1 })
  given_back :
      {g : Engine}
      → 0 < g.elsewhere
      → Step g (record g { udp_limit = g.udp_limit + 1; elsewhere = g.elsewhere - 1 })

pub data Runs : Engine → Engine → Type 0 where
  no_step : {g : Engine} → Runs g g
  then_step : {g g' g'' : Engine} → Runs g g' → Step g' g'' → Runs g g''

change_at_lem :
    (i : ℕ) (f : SessionEntry → SessionEntry) (es : List SessionEntry)
    → ((e : SessionEntry) → (f e).shared.client ≡ e.shared.client)
    → (length (change_at i f es) ≡ length es)
      × (map (λ e. e.shared.client) (change_at i f es) ≡ map (λ e. e.shared.client) es)
change_at_lem i f [] same = (refl, refl)
change_at_lem zero f (e ∷ es) same = (refl, ap (λ c. c ∷ map (λ x. x.shared.client) es) (same e))
change_at_lem (suc i) f (e ∷ es) same =
    let (a, b) = change_at_lem i f es same in (ap suc a, ap (λ l. e.shared.client ∷ l) b)

module _ (total : ℕ) (bound : total ≤ u64_max) where
  close_all-IsEngine : (g : Engine) → IsEngine total g → IsEngine total (close_all g)
  unfolding close_all
  close_all-IsEngine g wf =
      let g' = record g { sessions = [] } in
      let (permits, active) =
        close_entries-Accounts total bound g.sessions g' 0
          (omega (arith, wf.permits), omega (arith, wf.active)) in
      record {
        permits = omega (arith, permits);
        active = omega (arith, active);
        one_each = rw (close_entries-sessions g.sessions g') tt;
      }

  Step-IsEngine : {g g' : Engine} → Step g g' → IsEngine total g → IsEngine total g'
  unfolding sweep on_targets_changed dec_connections
  Step-IsEngine {g} (a_buffer client buf segment now_ms now b) wf =
      on_client_buffer-IsEngine total bound client buf segment now_ms now g b wf
  Step-IsEngine {g} (a_sweep timeout_ms now_ms) wf =
      retain-IsEngine total (is_live timeout_ms now_ms) g bound wf
  Step-IsEngine {g} (published addrs) wf = record {
    permits = wf.permits;
    active = wf.active;
    one_each = wf.one_each;
  }
  Step-IsEngine {g} targets_changed wf =
      retain-IsEngine total (λ e. contains g.targets e.shared.remote) g bound wf
  Step-IsEngine {g} all_closed wf = close_all-IsEngine g wf
  Step-IsEngine {g} (a_wake i e now_ms r at) wf =
      let (size, same) = change_at_lem i (on_wake now_ms r g.stats) g.sessions (λ x.
        (drain_upstream-client now_ms
          (record { replying = r; replied = false; shared = x.shared; stats = g.stats })).1) in
      let (active, client) =
        drain_upstream-client now_ms
          (record { replying = r; replied = false; shared = e.shared; stats = g.stats }) in
      record {
        permits = omega (arith, size, wf.permits);
        active = omega (arith, size, active, wf.active);
        one_each = subst Distinct (sym same) wf.one_each;
      }
  Step-IsEngine {g} (task_ended i) wf =
      let (size, same) = change_at_lem i (λ e. record e { task = false }) g.sessions (λ e. refl) in
      record {
        permits = omega (arith, size, wf.permits);
        active = omega (arith, size, wf.active);
        one_each = subst Distinct (sym same) wf.one_each;
      }
  Step-IsEngine {g} (socket_closed s before after split) wf =
      let size : length g.closing ≡ length before + suc (length after) =
        ap length split ∙ length-append before (s ∷ after) in
      let size' : length (before ++ after) ≡ length before + length after =
        length-append before after in
      record {
        permits = omega (arith, size, size', wf.permits);
        active = omega (arith, size, size', wf.active, wf.permits, bound);
        one_each = wf.one_each;
      }
  Step-IsEngine {g} (taken_elsewhere room) wf = record {
    permits = omega (arith, wf.permits, room);
    active = wf.active;
    one_each = wf.one_each;
  }
  Step-IsEngine {g} (given_back some_there) wf = record {
    permits = omega (arith, wf.permits, some_there);
    active = wf.active;
    one_each = wf.one_each;
  }

  -- However the steps follow each other, an engine keeps this: each socket to a target holds one of the
  -- `total` permits, if they are fewer than 2^64, and counts as one active connection, and no client has
  -- two sessions.
  pub Runs-IsEngine : {g g' : Engine} → IsEngine total g → Runs g g' → IsEngine total g'
  Runs-IsEngine wf no_step = wf
  Runs-IsEngine wf (then_step runs step) = Step-IsEngine step (Runs-IsEngine wf runs)
