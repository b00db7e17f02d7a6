-- ===== src/Monitor/Outage.antt =====
-- The alerts of the monitor over the rounds of its life.

use rfw.Text.{Text}
use rfw.Base.{
  Bool, List, Option, Option-cases, Result, [], arith, err, false, if◌then◌else◌, inl, inr, none,
  ok, refl, some, true, ℕ, ◌++◌, ◌∷◌, ◌≡◌,
}
use rfw.Monitor.{
  Downtime, ProbeOutcome, Target, UdpVerdict, Watch, down, hold, icmp_error, judge_tcp, judge_udp,
  observe_probe, record_down, record_up, report_dns_change, tcp_round, udp_round, udp_verdict, up,
}
use rfw.Stats.{UdpSample, udp_sample}
use rfw.Net.{IpAddr, SocketAddr}
use rfw.Notify.Event.{Event, kind, target_recovered, target_unreachable}

-- A round of either monitor, with all that it reads. A round may start from any previous sample.
pub data Round : Type 0 where
  tcp_at : ℕ → ℕ → Option ProbeOutcome → Round
  udp_at : ℕ → ℕ → ProbeOutcome → Option UdpSample → Round

abbrev pub play : Target → Round → Watch → Watch × List Event
play t (tcp_at threshold now o) w = tcp_round t threshold now o w
play t (udp_at threshold now o prev) w =
    let (w', es, cur) = udp_round t threshold now o prev w in (w', es)

pub play_all : Target → List Round → Watch → Watch × List Event
play_all t [] w = (w, [])
play_all t (r ∷ rs) w =
    let (w', es) = play t r w in let (w'', fs) = play_all t rs w' in (w'', es ++ fs)

-- What an observer of the messages believes: is an alert raised now? `none` when a message does not fit.
observe : Bool → Event → Option Bool
observe raised (target_unreachable l t d e) = if raised then none else some true
observe raised (target_recovered l t d a) = if raised then some false else none
observe raised e = some raised

pub outage : Bool → List Event → Option Bool
unfolding observe
outage raised [] = some raised
outage raised (e ∷ es) = elim (observe raised e) [ none ↦ none | some b ↦ outage b es ]

abbrev alerted_of : Option Downtime → Bool
alerted_of none = false
alerted_of (some d) = d.alerted

abbrev pub alerted : Watch → Bool
alerted w = alerted_of w.down

abbrev resume : List Event → Option Bool → Option Bool
resume ys none = none
resume ys (some b) = outage b ys

outage-append : (a : Bool) (xs ys : List Event) → outage a (xs ++ ys) ≡ resume ys (outage a xs)
unfolding outage
outage-append a [] ys = refl
outage-append a (x ∷ xs) ys = elim (Option-cases (observe a x)) [
  | inl e ↦ rw (outage, e)
  | inr (b, e) ↦ rw (outage, e) (outage-append b xs ys)
]

-- A step keeps the observer's belief right.
abbrev Tells : Watch → Watch × List Event → Type 0
Tells w (w', es) = outage (alerted w) es ≡ some (alerted w')

Tells-append :
    (w : Watch) (p q : Watch × List Event) → Tells w p → Tells p.0 q → Tells w (q.0, p.1 ++ q.1)
Tells-append w p q h k = rw (outage-append (alerted w) p.1 q.1, h) k

report_dns_change-Tells :
    (t : Target) (addrs : List IpAddr) (w : Watch) → Tells w (report_dns_change t addrs w)
unfolding outage report_dns_change
report_dns_change-Tells t addrs w = ground arith

record_up-Tells :
    (t : Target) (address : Option SocketAddr) (now : ℕ) (w : Watch)
    → Tells w (record_up t address now w)
unfolding outage record_up
record_up-Tells t address now w = ground arith

record_down-Tells :
    (t : Target) (error : Text) (threshold now : ℕ) (w : Watch)
    → Tells w (record_down t error threshold now w)
unfolding outage record_down
record_down-Tells t error threshold now w = ground arith

observe_probe-Tells :
    (t : Target) (addrs : List IpAddr) (w : Watch) → Tells w (observe_probe t addrs w)
unfolding observe_probe outage
observe_probe-Tells t [] w = refl
observe_probe-Tells t (a ∷ l) w = report_dns_change-Tells t (a ∷ l) w

judge_tcp-Tells :
    (t : Target) (threshold now : ℕ) (r : Result Text (SocketAddr × ℕ)) (w : Watch)
    → Tells w (judge_tcp t threshold now r w)
unfolding judge_tcp
judge_tcp-Tells t threshold now (ok (addr, latency)) w = record_up-Tells t (some addr) now w
judge_tcp-Tells t threshold now (err e) w = record_down-Tells t e threshold now w

judge_udp-Tells :
    (t : Target) (threshold now : ℕ) (r : Result Text (SocketAddr × ℕ)) (v : UdpVerdict) (w : Watch)
    → Tells w (judge_udp t threshold now r v w)
unfolding judge_udp outage
judge_udp-Tells t threshold now (err e) v w = record_down-Tells t e threshold now w
judge_udp-Tells t threshold now (ok (addr, latency)) up w = record_up-Tells t (some addr) now w
judge_udp-Tells t threshold now (ok (addr, latency)) (down kind age) w =
    record_down-Tells t (icmp_error kind age) threshold now w
judge_udp-Tells t threshold now (ok (addr, latency)) hold w = refl

play-Tells : (t : Target) (r : Round) (w : Watch) → Tells w (play t r w)
unfolding tcp_round udp_round
play-Tells t (tcp_at threshold now none) w = record_up-Tells t none now w
play-Tells t (tcp_at threshold now (some o)) w =
    let seen = observe_probe t o.addrs w in
    Tells-append w seen (judge_tcp t threshold now o.result seen.0)
      (observe_probe-Tells t o.addrs w) (judge_tcp-Tells t threshold now o.result seen.0)
play-Tells t (udp_at threshold now o prev) w =
    let seen = observe_probe t o.addrs w in
    let v = udp_verdict (udp_sample seen.0.stats now) prev in
    Tells-append w seen (judge_udp t threshold now o.result v seen.0)
      (observe_probe-Tells t o.addrs w) (judge_udp-Tells t threshold now o.result v seen.0)

-- Over any rounds of either monitor, a recovery is only announced for an outage that was announced,
-- an outage is announced once until its recovery, and the messages tell at the end whether an
-- announced outage is open.
pub outage-play_all :
    (t : Target) (rs : List Round) (w : Watch)
    → outage (alerted w) (play_all t rs w).1 ≡ some (alerted (play_all t rs w).0)
unfolding outage play_all
outage-play_all t [] w = refl
outage-play_all t (r ∷ rs) w =
    let played = play t r w in
    Tells-append w played (play_all t rs played.0) (play-Tells t r w)
      (outage-play_all t rs played.0)
