-- ===== src/Notify/Plain.antt =====
-- `strip_control`, `truncate_chars`, `plain`, `mono` and `fmt_duration` of `src/notify.rs`: operator
-- text made fit for a message.
pub mod Clean
use rfw.Text.{Text, codes, trim}
use rfw.Base.{
  Bool, [], false, if◌then◌else◌, leb, length, list_eq, ltb, map, max, nat_eq, take, true, ℕ, ◌%◌,
  ◌&&◌, ◌++◌, ◌-◌, ◌/◌, ◌==◌, ◌||◌, ◌∷◌,
}
use rfw.Text.Decimal.{show}

abbrev pub max_detail_chars : ℕ
max_detail_chars = 300

-- `char::is_control`, the category Cc.
abbrev pub is_control : ℕ → Bool
is_control c = ltb c 32 || (leb 127 c && ltb c 160)

abbrev pub space : ℕ
space = b' '

-- The loop of `strip_control`, with `last_space`.
flatten : Bool → Text → Text
flatten last_space [] = []
flatten last_space (c ∷ s) =
    let wide = flatten true s in
    if is_control c || c == space
    then (if last_space then wide else space ∷ wide)
    else c ∷ flatten false s

unfoldable pub strip_control : Text → Text
unfolding flatten
strip_control s = trim (flatten false s)

-- The last character is `…`.
unfoldable pub truncate_chars : Text → ℕ → Text
truncate_chars s max = if leb (length s) max then s else take (max - 1) s ++ 0x2026 ∷ []

unfoldable pub plain : Text → Text
plain s = truncate_chars (strip_control s) max_detail_chars

-- `replace`.
abbrev quote_backticks : Text → Text
quote_backticks = map (λ c. if c == b'`' then b'\'' else c)

unfoldable pub mono : Text → Text
mono s = b'`' ∷ (strip_control (truncate_chars (quote_backticks s) max_detail_chars) ++ b'`' ∷ [])

-- `{:02}`.
abbrev two_digits : ℕ → Text
two_digits n = if ltb n 10 then b'0' ∷ show n else show n

unfoldable pub fmt_duration : ℕ → Text
fmt_duration secs =
    if ltb secs 60
    then show secs ++ codes "s"
    else if ltb secs 3600
    then show (secs / 60) ++ (codes "m " ++ (two_digits (secs % 60) ++ codes "s"))
    else if ltb secs 86_400
    then show (secs / 3600) ++ (codes "h " ++ (two_digits (secs % 3600 / 60) ++ codes "m"))
    else show (secs / 86_400) ++ (codes "d " ++ (two_digits (secs % 86_400 / 3600) ++ codes "h"))
