-- ===== src/Tests/Tcp.antt =====
-- Runs of a TCP forwarder's listener.

use rfw.Text.{Text, codes}
use rfw.Base.{[], arith, none, refl, some, ◌∷◌, ◌≡◌}
use rfw.Config.Forwarder.{tcp}
use rfw.Stats.{inc_rejected, with_protocol}
use rfw.Notify.Event.{connection_limit_reached}
use rfw.Tcp.{Acceptor, acquire_permit, on_accept}
use rfw.Tcp.Limit.{Accepts-IsAcceptor, IsAcceptor, an_accept, no_accept, then_accept}

abbrev port_taken : Text
port_taken = codes "address in use"

-- One permit, and one connection.
abbrev accepting : Acceptor
accepting = record {
  label = codes "web";
  conn_limit = some 1;
  elsewhere = 0;
  starting = 0;
  running = 0;
  stats = with_protocol (codes "web") tcp;
  last_limit_alert = none;
  notified = [];
}

accepting-IsAcceptor : IsAcceptor 1 accepting
unfolding with_protocol
accepting-IsAcceptor = (refl, refl, omega arith)

abbrev saturated : Acceptor
saturated = on_accept 20 (on_accept 10 accepting)

saturated_run :
    (saturated.conn_limit ≡ some 0)
    × (saturated.starting ≡ 1)
    × (saturated.notified ≡ connection_limit_reached (codes "web") 1 ∷ [])
unfolding on_accept acquire_permit with_protocol inc_rejected
saturated_run = (refl, refl, refl)

Accepts-IsAcceptor_example : IsAcceptor 1 saturated
Accepts-IsAcceptor_example =
    Accepts-IsAcceptor 1 accepting-IsAcceptor
      (then_accept (then_accept no_accept (an_accept 10)) (an_accept 20))
