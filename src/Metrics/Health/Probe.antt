-- ===== src/Metrics/Health/Probe.antt =====
-- `health_check` against `handle_conn`.

use rfw.Base.{
  All, Bool, List, Result, [], all, ap, append-nil, arith, false, if◌then◌else◌, keep_if, ltb, map,
  not, ok, refl, some, sym, true, ◌++◌, ◌↔◌, ◌∙◌, ◌∷◌, ◌≡◌,
}
use rfw.Text.{Text, codes, split, split_once, strip_prefix}
use rfw.Stats.Registry.{StatsSnapshot}
use rfw.Udp.Chunks.{Bytes, chunks}
use rfw.Udp.Errors.{IoError}
use rfw.Metrics.{http_response}
use rfw.Metrics.Head.Pieces.{Pieces, read_whole-Pieces}
use rfw.Metrics.Webhook.{NotifierSnapshot}
use rfw.Metrics.Health.{
  IsAscii, Utf8, answered, handle_conn, health_check, health_of, probe, render_health, respond,
  unbound,
}
use rfw.Metrics.Head.{
  any_window, first_line, head_of, parse_request_target, read_head, split_whitespace,
}
use rfw.Metrics.Head.Scan.{read_head_lem}

abbrev pub AllListen : List StatsSnapshot → Type 0
AllListen = All (λ s. s.listening ≡ true)

-- The check accepts an answer.
abbrev pub Accepts : Utf8 → Bytes → Type 0
Accepts u answer = health_check u true (some (ok answer)) ≡ ok tt

abbrev labels : List StatsSnapshot → List Text
labels = map (λ s. s.label)

labels-keep :
    (b : Bool) (s : StatsSnapshot) (kept : List StatsSnapshot)
    → (labels (if not b then s ∷ kept else kept) ≡ []) ↔ ((b ≡ true) × (labels kept ≡ []))
labels-keep true s kept = (λ e. (refl, e), λ h. h.1)
labels-keep false s kept = (λ e. cc, λ h. cc)

unbound-AllListen : (snaps : List StatsSnapshot) → (unbound snaps ≡ []) ↔ AllListen snaps
unbound-AllListen [] = (λ e. tt, λ h. refl)
unbound-AllListen (s ∷ snaps) =
    let (split, join) = labels-keep s.listening s (keep_if (λ x. not x.listening) snaps) in
    let (all, none_left) = unbound-AllListen snaps in
    (λ e. ((split e).0, all (split e).1), λ h. join (h.0, none_left h.1))

-- Whether all characters are below 128.
ascii : Text → Bool
ascii = all (λ c. ltb c 128)

ascii-IsAscii : (s : Text) → ascii s ≡ true → IsAscii s
unfolding ascii
ascii-IsAscii [] h = tt
ascii-IsAscii (c ∷ s) h = (ground arith, ascii-IsAscii s (ground arith))

module _ (u : Utf8) where
  lossy-ascii : (s : Text) → ascii s ≡ true → u.lossy s ≡ s
  lossy-ascii s h =
      ap u.lossy (sym (append-nil s))
      ∙ u.lossy_ascii s [] (ascii-IsAscii s h)
      ∙ ap (λ l. s ++ l) u.lossy_empty
      ∙ append-nil s

  lossy-encode :
      (a s : Text) → ascii a ≡ true → u.lossy (u.encode (a ++ s)) ≡ a ++ u.lossy (u.encode s)
  lossy-encode a s h =
      let low = ascii-IsAscii a h in
      ap u.lossy (u.encode_ascii a s low) ∙ u.lossy_ascii a (u.encode s) low

  ok-Accepts : (s : Text) → Accepts u (u.encode (codes "HTTP/1.1 200 OK" ++ s))
  unfolding health_check strip_prefix ascii
  ok-Accepts s = rw (health_check, lossy-encode (codes "HTTP/1.1 200 OK") s refl) refl

  unavailable-Accepts : (s : Text) → ¬ Accepts u (u.encode (codes "HTTP/1.1 503" ++ s))
  unfolding health_check strip_prefix ascii
  unavailable-Accepts s h =
      let e = lossy-encode (codes "HTTP/1.1 503") s refl in let bad = rw e at h in cc

  health_of-Accepts : (ls : List Text) → Accepts u (u.encode (health_of ls)) ↔ (ls ≡ [])
  unfolding health_of http_response
  health_of-Accepts [] = (λ h. refl, λ h. ok-Accepts _)
  health_of-Accepts (l ∷ ls) = (λ h. absurd (unavailable-Accepts _ h), λ h. cc)

  read_head-probe :
      (chunks : List Bytes) (more : List (Result IoError Bytes))
      → Pieces chunks probe
      → read_head (map ok chunks ++ more) [] 0 ≡ head_of probe
  unfolding any_window
  read_head-probe [] more (e, h) = cc
  read_head-probe (c ∷ cs) more (e, h) =
      read_head_lem (map ok (c ∷ cs) ++ more)
      ∙ read_whole-Pieces probe (omega arith) refl refl c cs more [] e h

  -- The probe, in whatever pieces it reaches the endpoint and whatever comes after it, is answered at
  -- once, and the check accepts the answer exactly when every forwarder is listening.
  pub health_check_lem :
      (chunks : List Bytes) (more : List (Result IoError Bytes)) (snaps : List StatsSnapshot)
      (n : NotifierSnapshot)
      → Pieces chunks probe
      → (answer : Bytes) × (handle_conn u (map ok chunks ++ more) snaps n ≡ answered answer)
        × (Accepts u answer ↔ AllListen snaps)
  unfolding handle_conn respond parse_request_target first_line split_whitespace split_once
      render_health ascii
  health_check_lem chunks more snaps n p =
      let verdict = health_of-Accepts (unbound snaps) in
      let all = unbound-AllListen snaps in
      (
        u.encode (render_health snaps),
        rw (read_head-probe chunks more p, lossy-ascii probe refl) refl,
        (λ h. all.0 (verdict.0 h), λ h. verdict.1 (all.1 h)),
      )
