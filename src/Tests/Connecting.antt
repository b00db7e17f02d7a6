-- ===== src/Tests/Connecting.antt =====
-- Connections to a target, what goes through them, and the lookups of its addresses.

use rfw.Base.{
  List, Result, [], arith, err, false, none, ok, refl, some, true, ℕ, ◌*◌, ◌+◌, ◌∷◌, ◌≡◌,
}
use rfw.Text.{codes}
use rfw.Net.{SocketAddr, address_set, v4}
use rfw.Config.Forwarder.{tcp}
use rfw.Stats.{ForwarderStats, with_protocol}
use rfw.Udp.Chunks.{Bytes}
use rfw.Udp.Errors.{ErrorKind, IoError}
use rfw.Udp.Refresh.{Refresher, run_dns_refresher}
use rfw.Udp.Refresh.Current.{SameAddrs, latest, run_dns_refresher_lem}
use rfw.Tcp.Splice.{Sink, finished, splice_dir}
use rfw.Tcp.Splice.Carried.{Carried, splice_dir_lem, stream}
use rfw.Tcp.Connect.{
  Answer, Attempt, Joins, Lookup, all_joined, attempt, connect_attempt_delay, connect_racing,
  join_next, opens, reach_target, silent, spawned, timeout_to,
}
use rfw.Tcp.Connect.Race.{Won, connect_racing_lem}
use rfw.Tcp.Connect.Reached.{Recorded, ToldChange, reach_target-Recorded, reach_target-told}

abbrev empty_sink : Sink
empty_sink = record { delivered = []; counter = 0; half_closed = false }

abbrev source_reads : List (Result IoError Bytes)
source_reads = ok (1 ∷ 2 ∷ 3 ∷ []) ∷ ok (4 ∷ []) ∷ ok [] ∷ []

-- The destination takes two bytes, then has no room, then takes what there is.
abbrev room : List (Result IoError ℕ)
room =
    ok 2
    ∷ err (record { error_kind = ErrorKind.would_block; raw_os_error = some 11 })
    ∷ ok 9
    ∷ ok 9
    ∷ []

splice_run :
    splice_dir source_reads room empty_sink
    ≡ (record { delivered = 1 ∷ 2 ∷ 3 ∷ 4 ∷ []; counter = 4; half_closed = true }, finished)
unfolding splice_dir
splice_run = refl

splice_dir_lem_example :
    Carried (stream source_reads) empty_sink (splice_dir source_reads room empty_sink)
splice_dir_lem_example = splice_dir_lem source_reads room empty_sink (omega arith)

abbrev at_port : ℕ → SocketAddr
at_port n = record { ip = v4 n; port = 80 }

-- The first address never answers.
abbrev two_addresses : List (SocketAddr × Answer)
two_addresses = (at_port 1, silent) ∷ (at_port 2, opens 40) ∷ []

abbrev dead_attempt : Attempt
dead_attempt = record {
  address = at_port 1;
  ended_at = 10_000;
  failure = some (timeout_to (at_port 1));
}

abbrev live_attempt : Attempt
live_attempt = record { address = at_port 2; ended_at = 290; failure = none }

abbrev in_order : List Attempt
in_order = live_attempt ∷ dead_attempt ∷ []

spawned_run : spawned 10_000 0 two_addresses ≡ dead_attempt ∷ live_attempt ∷ []
unfolding spawned attempt
spawned_run = refl

in_order-Joins : Joins (spawned 10_000 0 two_addresses) in_order
unfolding spawned attempt
in_order-Joins =
    join_next (dead_attempt ∷ []) live_attempt [] (dead_attempt ∷ []) (omega arith, tt)
      (join_next [] dead_attempt [] [] tt all_joined)

connect_racing_lem_example :
    Won (spawned 10_000 0 two_addresses) (connect_racing in_order) (connect_attempt_delay * 1 + 40)
connect_racing_lem_example =
    connect_racing_lem 10_000 1 40 two_addresses (at_port 2) in_order in_order-Joins refl
      (omega arith)

abbrev fresh : ForwarderStats
fresh = with_protocol (codes "web") tcp

abbrev observed : ForwarderStats
observed = record fresh { last_addrs = some (address_set (v4 1 ∷ [])) }

abbrev two_ips : Lookup
two_ips = some (ok (v4 1 ∷ v4 2 ∷ []))

abbrev race_in_order : List SocketAddr → List Attempt
race_in_order targets = in_order

reach_target-Recorded_example :
    let (s', events, r) =
      reach_target (codes "web") (codes "web.example") 80 none two_ips race_in_order 700 observed in
    Recorded 700 observed s' r
reach_target-Recorded_example =
    reach_target-Recorded (codes "web") (codes "web.example") 80 none two_ips race_in_order 700
      observed

reach_target-told_example :
    ToldChange
      (codes "web")
      (codes "web.example")
      (v4 1 ∷ [])
      (v4 1 ∷ v4 2 ∷ [])
      (reach_target
        (codes "web")
        (codes "web.example")
        80
        none
        two_ips
        race_in_order
        700
        observed).1
reach_target-told_example =
    reach_target-told (codes "web") (codes "web.example") 80 (v4 1) (v4 2 ∷ []) (v4 1 ∷ [])
      race_in_order 700 observed refl

abbrev refresher : Refresher
refresher = record { stats = observed; published = at_port 1 ∷ []; changes = 0; told = [] }

-- A lookup that finds two addresses, and one that fails.
abbrev lookups : List Lookup
lookups = two_ips ∷ none ∷ []

run_dns_refresher_lem_example :
    SameAddrs
      (run_dns_refresher (codes "dns") (codes "dns.example") 53 lookups refresher).published
      (latest 53 lookups (at_port 1 ∷ []))
run_dns_refresher_lem_example =
    run_dns_refresher_lem (codes "dns") (codes "dns.example") 53 lookups (at_port 1 ∷ []) refresher
      (λ a. refl)
