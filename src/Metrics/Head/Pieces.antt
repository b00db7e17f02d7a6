-- ===== src/Metrics/Head/Pieces.antt =====
-- A request that ends with its head is read whole, in whatever pieces it comes.

use rfw.Base.{
  All, Bool-cases, List, Result, [], ap, append-nil, append_assoc, arith, false, inl, inr, leb,
  length, length-append, list_eq, map, nat_eq, ok, refl, subst, sym, take, true, ℕ, ◌++◌, ◌<◌, ◌==◌,
  ◌||◌, ◌∙◌, ◌∷◌, ◌≡◌, ◌≢◌,
}
use rfw.Udp.Chunks.{Bytes}
use rfw.Udp.Errors.{IoError}
use rfw.Metrics.Head.{any_window, head_of, max_request_bytes}
use rfw.Metrics.Head.Scan.{read_whole}
use rfw.Metrics.{crlf}

-- All but the last.
abbrev pub init : Bytes → Bytes
init [] = []
init (a ∷ []) = []
init (a ∷ b ∷ s) = a ∷ init (b ∷ s)

init-append : (p : Bytes) (x : ℕ) (q : Bytes) → init (p ++ x ∷ q) ≡ p ++ init (x ∷ q)
init-append [] x q = refl
init-append (a ∷ []) x q = refl
init-append (a ∷ b ∷ p) x q = ap (λ l. a ∷ l) (init-append (b ∷ p) x q)

any_window-append : (p q : Bytes) → any_window p ≡ true → any_window (p ++ q) ≡ true
unfolding any_window
any_window-append [] q h = cc
any_window-append (a ∷ []) q h = ground arith
any_window-append (a ∷ b ∷ []) q h = ground arith
any_window-append (a ∷ b ∷ c ∷ []) q h = ground arith
any_window-append (a ∷ b ∷ c ∷ d ∷ p) q h =
    let first = take 4 (a ∷ b ∷ c ∷ d ∷ p) == (crlf ++ crlf) in
    elim (Bool-cases first) [
      | inl t ↦ ap (λ x. x || any_window (b ∷ c ∷ d ∷ (p ++ q))) t
      | inr f ↦
          let others : any_window (b ∷ c ∷ d ∷ p) ≡ true =
            sym (ap (λ x. x || any_window (b ∷ c ∷ d ∷ p)) f) ∙ h in
          ap (λ x. x || any_window (b ∷ c ∷ d ∷ (p ++ q))) f
          ∙ any_window-append (b ∷ c ∷ d ∷ p) q others
    ]

abbrev pub joined : List Bytes → Bytes
joined [] = []
joined (c ∷ cs) = c ++ joined cs

-- The text comes in pieces, none of them empty.
abbrev pub Pieces : List Bytes → Bytes → Type 0
Pieces cs s = (joined cs ≡ s) × All (λ c. c ≢ []) cs

module _ (request : Bytes) (low : length request < max_request_bytes)
    (ends : any_window request ≡ true) (last : any_window (init request) ≡ false) where
  prefix-any_window : (p : Bytes) (x : ℕ) (q : Bytes) → p ++ x ∷ q ≡ request → any_window p ≡ false
  prefix-any_window p x q e = elim (Bool-cases (any_window p)) [
    | inr f ↦ f
    | inl t ↦
        let more : any_window (init request) ≡ true =
          subst (λ s. any_window s ≡ true) (sym (init-append p x q) ∙ ap init e)
            (any_window-append p (init (x ∷ q)) t) in
        cc
  ]

  pub read_whole-Pieces :
      (c : Bytes) (cs : List Bytes) (more : List (Result IoError Bytes)) (buf : Bytes)
      → buf ++ joined (c ∷ cs) ≡ request
      → All (λ x. x ≢ []) (c ∷ cs)
      → read_whole (map ok (c ∷ cs) ++ more) buf ≡ head_of request
  unfolding read_whole
  read_whole-Pieces [] cs more buf e (h, _) = absurd (h refl)
  read_whole-Pieces (b ∷ bytes) [] more buf e h =
      let all : buf ++ b ∷ bytes ≡ request =
        ap (λ l. buf ++ l) (sym (append-nil (b ∷ bytes))) ∙ e in
      rw (all, ends) refl
  read_whole-Pieces (b ∷ bytes) ([] ∷ cs) more buf e (_, (h, _)) = absurd (h refl)
  read_whole-Pieces (b ∷ bytes) ((x ∷ c) ∷ cs) more buf e (_, h) =
      let buf' = buf ++ b ∷ bytes in
      let q = c ++ joined cs in
      let whole : buf' ++ x ∷ q ≡ request = append_assoc buf (b ∷ bytes) (x ∷ q) ∙ e in
      let none_yet = prefix-any_window buf' x q whole in
      let short : leb max_request_bytes (length buf') ≡ false =
        ground (arith, ap length whole, length-append buf' (x ∷ q)) in
      let rest = read_whole-Pieces (x ∷ c) cs more buf' whole h in rw (none_yet, short) rest
