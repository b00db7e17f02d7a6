-- ===== src/Notify/Render.antt =====
-- The footer of `Event::render` of `src/notify.rs`, and the message as a whole.
pub mod Lines
pub mod Newlines
use rfw.Base.{List, [], suc, zero, ℕ, ◌++◌, ◌+◌, ◌∷◌}
use rfw.Text.{Text, codes}
use rfw.Text.Decimal.{show}
use rfw.Notify.Event.{Event, Severity, critical, info, severity, warning}
use rfw.Notify.Plain.{plain, truncate_chars}
use rfw.Notify.Footer.{format_utc}
use rfw.Notify.Body.{AddressDisplay, InstanceInfo, body, line_feed, pieces}

abbrev pub max_text_chars : ℕ
max_text_chars = 4000

abbrev pub icon : Severity → Text
icon info = codes "🟢"
icon warning = codes "🟠"
icon critical = codes "🔴"

suppressed_note : ℕ → List Text
suppressed_note zero = []
suppressed_note (suc n) =
    line_feed
    ∷ codes "_(+"
    ∷ show (suc n)
    ∷ codes " similar event(s) suppressed since the previous message)_"
    ∷ []

-- `now` is the time in Unix seconds.
unfoldable pub footer : InstanceInfo → ℕ → List Text
footer instance now =
    line_feed
    ∷ codes "_"
    ∷ plain instance.name
    ∷ codes " · pid "
    ∷ show instance.pid
    ∷ codes " · rfw "
    ∷ instance.version
    ∷ codes " · "
    ∷ format_utc now
    ∷ codes "_"
    ∷ []

module _ (display : AddressDisplay) where
  -- `text` of `Event::render` as it stands at the last line, which gives it to `truncate_chars`.
  unfoldable pub message : InstanceInfo → ℕ → ℕ → Event → Text
  unfolding suppressed_note
  message instance suppressed now event =
      pieces (body display instance (icon (severity event)) event)
      ++ (pieces (suppressed_note suppressed) ++ pieces (footer instance now))

  unfoldable pub render : InstanceInfo → ℕ → ℕ → Event → Text
  render instance suppressed now event =
      truncate_chars (message instance suppressed now event) max_text_chars
