-- ===== src/Tests/Messages.antt =====
-- Messages and their footer.

use rfw.Base.{length, refl, ℕ, ◌*◌, ◌++◌, ◌+◌, ◌<◌, ◌∷◌, ◌≡◌, ◌≤◌, ◌⊎◌}
use rfw.Text.{codes}
use rfw.Text.Lines.{newlines, one_line-Lacks}
use rfw.Text.Decimal.{show}
use rfw.Notify.Event.{Event, config_reload_failed}
use rfw.Notify.Body.{AddressDisplay, InstanceInfo}
use rfw.Notify.Footer.{civil, format_utc, utc_time}
use rfw.Notify.Footer.Calendar.{IsValid, day_number}
use rfw.Notify.Footer.Civil.{epoch, utc_time_lem}
use rfw.Notify.Render.{max_text_chars, render}
use rfw.Notify.Render.Lines.{lines_below, newlines-render, noted}

-- A leap day.
abbrev moment : ℕ
moment = 1_709_210_096

format_run : format_utc moment ≡ codes "2024-02-29 12:34:56 UTC"
unfolding format_utc utc_time civil show
format_run = refl

utc_time_lem_example :
    let t = utc_time moment in
    IsValid t.date
    × (t.hour < 24)
    × (t.minute < 60)
    × (t.second < 60)
    × (day_number t.date * 86_400 + t.hour * 3600 + t.minute * 60 + t.second
        ≡ day_number epoch * 86_400 + moment)
utc_time_lem_example = utc_time_lem moment

abbrev addresses : AddressDisplay
addresses = record { show_ip = λ ip. codes "::1"; show_addr = λ a. codes "[::1]:80" }

abbrev here : InstanceInfo
here = record { name = codes "edge-1"; version = codes "1.2.0"; pid = 7 }

abbrev reload_failed : Event
reload_failed = config_reload_failed (codes "rfw.yml") (codes "line 1" ++ 10 ∷ codes "line 2")

newlines-render_example :
    let text = render addresses here 2 moment reload_failed in
    (newlines text ≤ lines_below reload_failed + noted 2 + 1)
    × ((newlines text ≡ lines_below reload_failed + noted 2 + 1) ⊎ (length text ≡ max_text_chars))
    × (length text ≤ max_text_chars)
newlines-render_example =
    newlines-render addresses here 2 moment reload_failed (one_line-Lacks (codes "1.2.0") refl)
