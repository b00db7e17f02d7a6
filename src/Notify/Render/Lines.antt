-- ===== src/Notify/Render/Lines.antt =====
-- The lines of a message.

use rfw.Base.{
  List, Result, [], ap, arith, err, inl, inr, keep_if, length, none, ok, refl, some, suc, zero, ℕ,
  ◌++◌, ◌+◌, ◌/◌, ◌∙◌, ◌∷◌, ◌≡◌, ◌≤◌, ◌⊎◌,
}
use rfw.Text.{Lacks, Text}
use rfw.Text.Lines.{newlines, newlines-append, newlines_none}
use rfw.Net.{SocketAddr}
use rfw.Config.Forwarder.{Protocol, label, tcp, udp}
use rfw.Notify.Event.{
  Event, ProbeReport, bind_failed, bind_recovered, config_reload_failed, config_reloaded,
  connection_limit_reached, dns_changed, internal, severity, started, stopping, target_recovered,
  target_unreachable, udp_session_limit_reached,
}
use rfw.Notify.Body.{
  AddressDisplay, InstanceInfo, answering_at, body, changed_list, is_failed, join_ips, pieces,
  report_found, report_lines, report_outcome, unchanged, unreachable_count,
}
use rfw.Notify.Render.{footer, icon, max_text_chars, message, render, suppressed_note}
use rfw.Notify.Render.Newlines.{
  newlines-consequence, newlines-fmt_duration, newlines-format_utc, newlines-icon,
  newlines-join_mono, newlines-mono, newlines-pieces, newlines-plain, newlines-show,
  newlines-truncate_chars, total, total-append,
}
use rfw.Notify.Plain.Clean.{length-truncate_chars}

-- The lines of an event below its first.
abbrev pub lines_below : Event → ℕ
lines_below (started forwarders) = length forwarders
lines_below (stopping signal active) = 0
lines_below (dns_changed label host old new) = 3
lines_below (target_unreachable label target down_for error) = 3
lines_below (target_recovered label target down_for none) = 2
lines_below (target_recovered label target down_for (some addr)) = 3
lines_below (bind_failed label addr error attempts) = 3
lines_below (bind_recovered label addr attempts) = 2
lines_below (config_reloaded active [] []) = 1
lines_below (config_reloaded active [] (r ∷ removed)) = 1
lines_below (config_reloaded active (a ∷ added) []) = 1
lines_below (config_reloaded active (a ∷ added) (r ∷ removed)) = 2
lines_below (config_reload_failed path error) = 2
lines_below (connection_limit_reached label rejected) = 2
lines_below (udp_session_limit_reached label rejected) = 2
lines_below (internal component message) = 1

-- How many lines the note on suppressed events takes.
abbrev pub noted : ℕ → ℕ
noted zero = 0
noted (suc n) = 1

total-suppressed_note : (n : ℕ) → total (suppressed_note n) ≡ noted n
unfolding suppressed_note newlines
total-suppressed_note zero = refl
total-suppressed_note (suc n) = rw (newlines-show (suc n)) refl

total-footer :
    (instance : InstanceInfo) (now : ℕ)
    → Lacks 10 instance.version
    → total (footer instance now) ≡ 1
unfolding footer newlines
total-footer instance now v =
    rw
      (
        newlines-plain instance.name,
        newlines-show instance.pid,
        newlines_none instance.version v,
        newlines-format_utc now,
      )
      refl

module _ (display : AddressDisplay) where
  total-report_outcome :
      (label : Text) (protocol : Protocol) (outcome : Result Text (SocketAddr × ℕ))
      → total (report_outcome display label protocol outcome) ≡ 0
  unfolding report_outcome report_found newlines
  total-report_outcome l udp (ok (addr, latency)) =
      rw (newlines-mono l, newlines-mono (display.show_addr addr), newlines-show latency) refl
  total-report_outcome l tcp (ok (addr, latency)) =
      rw (newlines-mono l, newlines-mono (display.show_addr addr), newlines-show latency) refl
  total-report_outcome l protocol (err e) = rw (newlines-mono l, newlines-plain e) refl

  total-report_lines :
      (forwarders : List ProbeReport) → total (report_lines display forwarders) ≡ length forwarders
  unfolding report_lines newlines
  total-report_lines [] = refl
  total-report_lines (f ∷ fs) =
      let one = report_outcome display f.label f.protocol f.outcome in
      omega (
        arith,
        total-append one (report_lines display fs),
        total-report_outcome f.label f.protocol f.outcome,
        total-report_lines fs,
      )

  total-unreachable_count : (bad : ℕ) → total (unreachable_count display bad) ≡ 0
  unfolding unreachable_count newlines
  total-unreachable_count zero = refl
  total-unreachable_count (suc bad) = rw (newlines-show (suc bad)) refl

  total-body :
      (instance : InstanceInfo) (icon : Text) (event : Event)
      → newlines icon ≡ 0
      → total (body display instance icon event) ≡ lines_below event
  unfolding body newlines answering_at changed_list unchanged
  total-body instance icon (stopping signal active) e =
      rw (newlines-mono instance.name, newlines-plain signal, newlines-show active) refl
  total-body instance icon (started forwarders) e =
      let bad = unreachable_count display (length (keep_if is_failed forwarders)) in
      omega (
        arith,
        e,
        newlines-mono instance.name,
        newlines-show (length forwarders),
        total-append bad (report_lines display forwarders),
        total-unreachable_count (length (keep_if is_failed forwarders)),
        total-report_lines forwarders,
      )
  total-body instance icon (dns_changed l host old new) e =
      rw
        (
          newlines-mono l,
          newlines-mono host,
          newlines-mono (join_ips display.show_ip old),
          newlines-mono (join_ips display.show_ip new),
          newlines-consequence l,
        )
        refl
  total-body instance icon (target_unreachable l target down_for error) e =
      rw
        (
          e,
          newlines-mono l,
          newlines-mono target,
          newlines-fmt_duration (down_for / 1000),
          newlines-plain error,
        )
        refl
  total-body instance icon (target_recovered l target down_for none) e =
      rw (newlines-mono l, newlines-mono target, newlines-fmt_duration (down_for / 1000)) refl
  total-body instance icon (target_recovered l target down_for (some addr)) e =
      rw
        (
          newlines-mono l,
          newlines-mono target,
          newlines-fmt_duration (down_for / 1000),
          newlines-mono (display.show_addr addr),
        )
        refl
  total-body instance icon (bind_failed l addr error attempts) e =
      rw (e, newlines-mono l, newlines-mono addr, newlines-plain error, newlines-show attempts) refl
  total-body instance icon (bind_recovered l addr attempts) e =
      rw (newlines-mono l, newlines-mono addr, newlines-show attempts) refl
  total-body instance icon (config_reloaded active [] []) e =
      rw (newlines-mono instance.name, newlines-show active) refl
  total-body instance icon (config_reloaded active [] (r ∷ removed)) e =
      rw (newlines-mono instance.name, newlines-show active, newlines-join_mono (r ∷ removed)) refl
  total-body instance icon (config_reloaded active (a ∷ added) []) e =
      rw (newlines-mono instance.name, newlines-show active, newlines-join_mono (a ∷ added)) refl
  total-body instance icon (config_reloaded active (a ∷ added) (r ∷ removed)) e =
      rw
        (
          newlines-mono instance.name,
          newlines-show active,
          newlines-join_mono (a ∷ added),
          newlines-join_mono (r ∷ removed),
        )
        refl
  total-body instance icon (config_reload_failed path error) e =
      rw (e, newlines-mono instance.name, newlines-mono path, newlines-plain error) refl
  total-body instance icon (connection_limit_reached l rejected) e =
      rw (e, newlines-mono l, newlines-show rejected) refl
  total-body instance icon (udp_session_limit_reached l rejected) e =
      rw (e, newlines-mono l, newlines-show rejected) refl
  total-body instance icon (internal component text) e =
      rw (e, newlines-mono component, newlines-mono instance.name, newlines-plain text) refl

  newlines-message :
      (instance : InstanceInfo) (suppressed now : ℕ) (event : Event)
      → Lacks 10 instance.version
      → newlines (message display instance suppressed now event)
        ≡ lines_below event + noted suppressed + 1
  unfolding message
  newlines-message instance suppressed now event v =
      let told = body display instance (icon (severity event)) event in
      let note = suppressed_note suppressed in
      let last = footer instance now in
      omega (
        arith,
        newlines-append (pieces told) (pieces note ++ pieces last),
        newlines-append (pieces note) (pieces last),
        newlines-pieces told,
        newlines-pieces note,
        newlines-pieces last,
        total-body instance (icon (severity event)) event (newlines-icon (severity event)),
        total-suppressed_note suppressed,
        total-footer instance now v,
      )

  -- The text of an alert that is sent has no more line feeds than its event has lines below the first
  -- one, one for the note on suppressed events if there were any, and one for the footer: no label,
  -- name or error text that goes into it adds a line. It is at most 4000 characters long, and has
  -- exactly that many line feeds unless it is 4000 characters long, the length to which a longer text
  -- is cut. The version of the program has no line feed.
  pub newlines-render :
      (instance : InstanceInfo) (suppressed now : ℕ) (event : Event)
      → Lacks 10 instance.version
      → let text = render display instance suppressed now event in
        (newlines text ≤ lines_below event + noted suppressed + 1)
        × ((newlines text ≡ lines_below event + noted suppressed + 1)
            ⊎ (length text ≡ max_text_chars))
        × (length text ≤ max_text_chars)
  unfolding render
  newlines-render instance suppressed now event v =
      let whole = message display instance suppressed now event in
      let lines = newlines-message instance suppressed now event v in
      let short = length-truncate_chars whole max_text_chars (omega arith) in
      elim (newlines-truncate_chars whole max_text_chars (omega arith)) [
        | inl same ↦ (rw (same, lines) (omega arith), inl (ap newlines same ∙ lines), short)
        | inr (fewer, full) ↦ (omega (arith, fewer, lines), inr full, short)
      ]
