-- ===== src/Notify/Body.antt =====
-- `Event::render` of `src/notify.rs` up to the footer: the text of a message, as the pieces that the
-- code pushes.
use mathlib.Core.List.{reverse}
use rfw.Base.{
  Bool, List, Option, Result, [], err, false, if◌then◌else◌, keep_if, length, map, none, ok, some,
  suc, true, zero, ℕ, ◌++◌, ◌/◌, ◌∷◌,
}
use rfw.Text.{Text, codes, strip_prefix}
use rfw.Text.Decimal.{show}
use rfw.Net.{IpAddr, SocketAddr}
use rfw.Config.Forwarder.{Protocol, label, local_addr, tcp, udp}
use rfw.Notify.Event.{
  Event, ProbeReport, bind_failed, bind_recovered, config_reload_failed, config_reloaded,
  connection_limit_reached, dns_changed, internal, started, stopping, target_recovered,
  target_unreachable, udp_session_limit_reached,
}
use rfw.Notify.Plain.{fmt_duration, mono, plain}

pub record InstanceInfo : Type 0 where
  pub name : Text
  pub version : Text
  pub pid : ℕ

-- `Display` of the addresses.
pub record AddressDisplay : Type 0 where
  pub show_ip : IpAddr → Text
  pub show_addr : SocketAddr → Text

abbrev pub pieces : List Text → Text
pieces [] = []
pieces (p ∷ ps) = p ++ pieces ps

-- `join(", ")`.
unfoldable pub join_comma : List Text → Text
join_comma [] = []
join_comma (s ∷ []) = s
join_comma (s ∷ s' ∷ l) = s ++ (codes ", " ++ join_comma (s' ∷ l))

unfoldable pub join_ips : (IpAddr → Text) → List IpAddr → Text
join_ips show_ip [] = codes "(none)"
join_ips show_ip (ip ∷ ips) = join_comma (map show_ip (ip ∷ ips))

unfoldable pub join_mono : List Text → Text
join_mono items = join_comma (map mono items)

unfoldable pub is_failed : ProbeReport → Bool
is_failed r = elim r.outcome [ ok o ↦ false | err e ↦ true ]

abbrev pub ends_with : Text → Text → Bool
ends_with s suffix = elim (strip_prefix (reverse suffix) (reverse s)) [
  | none ↦ false
  | some _ ↦ true
]

abbrev pub line_feed : Text
line_feed = 10 ∷ []

-- Where the traffic goes from now on.
unfoldable pub consequence : Text → Text
consequence label =
    if ends_with label (codes "/udp")
    then codes
        "New UDP sessions now go to the new address; sessions to addresses no longer published were closed."
    else codes
        "New connections now go to the new address; connections already open stay on the old one."

module _ (display : AddressDisplay) where
  unfoldable pub report_found : Text → Protocol → SocketAddr → ℕ → List Text
  report_found label udp addr latency =
      codes "• "
      ∷ mono label
      ∷ codes " ✅ resolved to "
      ∷ mono (display.show_addr addr)
      ∷ codes " ("
      ∷ show latency
      ∷ codes " ms, udp: passive check)"
      ∷ []
  report_found label tcp addr latency =
      codes "• "
      ∷ mono label
      ∷ codes " ✅ reachable at "
      ∷ mono (display.show_addr addr)
      ∷ codes " ("
      ∷ show latency
      ∷ codes " ms)"
      ∷ []

  unfoldable pub report_outcome : Text → Protocol → Result Text (SocketAddr × ℕ) → List Text
  report_outcome label protocol (ok (addr, latency)) = report_found label protocol addr latency
  report_outcome label protocol (err e) =
      codes "• " ∷ mono label ∷ codes " ❌ unreachable: " ∷ plain e ∷ []

  unfoldable pub report_lines : List ProbeReport → List Text
  report_lines [] = []
  report_lines (f ∷ fs) =
      line_feed ∷ (report_outcome f.label f.protocol f.outcome ++ report_lines fs)

  unfoldable pub unreachable_count : ℕ → List Text
  unreachable_count zero = []
  unreachable_count (suc bad) = codes ", " ∷ show (suc bad) ∷ codes " target(s) unreachable" ∷ []

  unfoldable pub answering_at : Option SocketAddr → List Text
  answering_at none = []
  answering_at (some addr) = line_feed ∷ codes "Answering at " ∷ mono (display.show_addr addr) ∷ []

  unfoldable pub changed_list : Text → List Text → List Text
  changed_list what [] = []
  changed_list what (i ∷ items) = line_feed ∷ what ∷ join_mono (i ∷ items) ∷ []

  unfoldable pub unchanged : List Text → List Text → List Text
  unchanged [] [] = line_feed ∷ codes "Forwarder list unchanged (settings only)" ∷ []
  unchanged _ _ = []

  -- What is told of an event, before the footer.
  unfoldable pub body : InstanceInfo → Text → Event → List Text
  body instance icon (started forwarders) =
      icon
      ∷ codes " *rfw started* on "
      ∷ mono instance.name
      ∷ codes " — "
      ∷ show (length forwarders)
      ∷ codes " forwarder(s)"
      ∷ (unreachable_count (length (keep_if is_failed forwarders)) ++ report_lines forwarders)
  body instance icon (stopping signal active_connections) =
      codes "🟡 *rfw stopping* on "
      ∷ mono instance.name
      ∷ codes " ("
      ∷ plain signal
      ∷ codes ") — draining "
      ∷ show active_connections
      ∷ codes " active connection(s)"
      ∷ []
  body instance icon (dns_changed label host old new) =
      codes "🔵 *DNS change* for "
      ∷ mono host
      ∷ line_feed
      ∷ codes "Forwarder "
      ∷ mono label
      ∷ line_feed
      ∷ mono (join_ips display.show_ip old)
      ∷ codes " → "
      ∷ mono (join_ips display.show_ip new)
      ∷ line_feed
      ∷ consequence label
      ∷ []
  body instance icon (target_unreachable label target down_for last_error) =
      icon
      ∷ codes " *Target unreachable* "
      ∷ mono target
      ∷ line_feed
      ∷ codes "Forwarder "
      ∷ mono label
      ∷ line_feed
      ∷ codes "Failing for "
      ∷ fmt_duration (down_for / 1000)
      ∷ codes "; clients connecting to this port are being refused."
      ∷ line_feed
      ∷ codes "Last error: "
      ∷ plain last_error
      ∷ []
  body instance icon (target_recovered label target down_for address) =
      codes "✅ *Target reachable again* "
      ∷ mono target
      ∷ line_feed
      ∷ codes "Forwarder "
      ∷ mono label
      ∷ line_feed
      ∷ codes "Was unreachable for "
      ∷ fmt_duration (down_for / 1000)
      ∷ answering_at address
  body instance icon (bind_failed label local_addr error attempts) =
      icon
      ∷ codes " *Cannot bind* "
      ∷ mono local_addr
      ∷ line_feed
      ∷ codes "Forwarder "
      ∷ mono label
      ∷ line_feed
      ∷ codes "Error: "
      ∷ plain error
      ∷ line_feed
      ∷ codes "Attempt "
      ∷ show attempts
      ∷ codes "; retrying every 5 s. Clients cannot connect to this port until it binds."
      ∷ []
  body instance icon (bind_recovered label local_addr failed_attempts) =
      codes "✅ *Listening again* on "
      ∷ mono local_addr
      ∷ line_feed
      ∷ codes "Forwarder "
      ∷ mono label
      ∷ line_feed
      ∷ codes "Bound after "
      ∷ show failed_attempts
      ∷ codes " failed attempt(s)"
      ∷ []
  body instance icon (config_reloaded active added removed) =
      codes "🔵 *Config reloaded* on "
      ∷ mono instance.name
      ∷ codes " — "
      ∷ show active
      ∷ codes " forwarder(s) active"
      ∷ (unchanged added removed
          ++ (changed_list (codes "Added: ") added ++ changed_list (codes "Removed: ") removed))
  body instance icon (config_reload_failed path error) =
      icon
      ∷ codes " *Config reload failed* on "
      ∷ mono instance.name
      ∷ codes " — running configuration kept"
      ∷ line_feed
      ∷ codes "File: "
      ∷ mono path
      ∷ line_feed
      ∷ codes "Error: "
      ∷ plain error
      ∷ []
  body instance icon (connection_limit_reached label rejected_total) =
      icon
      ∷ codes " *Connection limit reached*"
      ∷ line_feed
      ∷ codes "Forwarder "
      ∷ mono label
      ∷ line_feed
      ∷ codes "max_connections is saturated; new connections are being refused ("
      ∷ show rejected_total
      ∷ codes " refused so far)."
      ∷ []
  body instance icon (udp_session_limit_reached label rejected_total) =
      icon
      ∷ codes " *UDP session limit reached*"
      ∷ line_feed
      ∷ codes "Forwarder "
      ∷ mono label
      ∷ line_feed
      ∷ codes "udp_max_sessions is saturated; datagrams from new clients are being dropped ("
      ∷ show rejected_total
      ∷ codes " refused so far)."
      ∷ []
  body instance icon (internal component message) =
      icon
      ∷ codes " *Internal problem* in "
      ∷ mono component
      ∷ codes " on "
      ∷ mono instance.name
      ∷ line_feed
      ∷ plain message
      ∷ []
