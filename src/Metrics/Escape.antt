-- ===== src/Metrics/Escape.antt =====
-- `escape` of `src/metrics.rs`.
pub mod Clean
pub mod Reading
use rfw.Base.{Bool, [], if◌then◌else◌, ltb, nat_eq, true, ℕ, ◌%◌, ◌++◌, ◌+◌, ◌-◌, ◌/◌, ◌==◌, ◌∷◌}
use rfw.Notify.Plain.{is_control}
use rfw.Text.{Text}

unfoldable pub hex_digit : ℕ → ℕ
hex_digit d = if ltb d 10 then b'0' + d else b'a' + (d - 10)

-- `{:04x}` of a number below 2 ^ 16: a control character is below 160.
abbrev hex4 : ℕ → Text
hex4 n =
    hex_digit (n / 4096 % 16)
    ∷ hex_digit (n / 256 % 16)
    ∷ hex_digit (n / 16 % 16)
    ∷ hex_digit (n % 16)
    ∷ []

unfoldable pub escape_char : ℕ → Text
escape_char c =
    if c == b'\\'
    then b'\\' ∷ b'\\' ∷ []
    else if c == b'"'
    then b'\\' ∷ b'"' ∷ []
    else if c == 10
    then b'\\' ∷ b'n' ∷ []
    else if c == 13
    then b'\\' ∷ b'r' ∷ []
    else if c == 9
    then b'\\' ∷ b't' ∷ []
    else if is_control c
    then b'\\' ∷ b'u' ∷ hex4 c
    else c ∷ []

unfoldable pub escape : Text → Text
escape [] = []
escape (c ∷ label) = escape_char c ++ escape label
