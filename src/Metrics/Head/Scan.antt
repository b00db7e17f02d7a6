-- ===== src/Metrics/Head/Scan.antt =====
-- The search for the end of a head looks at the tail alone, and finds what a search of the whole finds.

use rfw.Base.{
  Bool-cases, List, Result, [], ap, arith, drop, err, false, if◌then◌else◌, inl, inr, leb, length,
  ok, or-false, refl, subst, suc, sym, ◌++◌, ◌-◌, ◌||◌, ◌∙◌, ◌∷◌, ◌≡◌,
}
use rfw.Udp.Chunks.{Bytes}
use rfw.Udp.Errors.{IoError}
use rfw.Metrics.Head.{
  HeadRead, any_window, deadline, head_of, max_request_bytes, read_failed, read_head,
}

-- The same reading with a search of all that was read.
unfoldable pub read_whole : List (Result IoError Bytes) → Bytes → HeadRead
read_whole [] buf = deadline
read_whole (err e ∷ reads) buf = read_failed e
read_whole (ok [] ∷ reads) buf = head_of buf
read_whole (ok (b ∷ bytes) ∷ reads) buf =
    let buf' = buf ++ b ∷ bytes in
    let rest = read_whole reads buf' in
    if any_window buf' || leb max_request_bytes (length buf') then head_of buf' else rest

-- Behind a part with no end of a head, all but its last three bytes can be left out.
any_window-tail :
    (buf xs : Bytes)
    → any_window buf ≡ false
    → any_window (drop (length buf - 3) (buf ++ xs)) ≡ any_window (buf ++ xs)
unfolding any_window
any_window-tail [] xs h = refl
any_window-tail (a ∷ []) xs h = refl
any_window-tail (a ∷ b ∷ []) xs h = refl
any_window-tail (a ∷ b ∷ c ∷ []) xs h = refl
any_window-tail (a ∷ b ∷ c ∷ d ∷ buf) xs h =
    let s = b ∷ c ∷ d ∷ (buf ++ xs) in
    let (first, others) = or-false _ (any_window (b ∷ c ∷ d ∷ buf)) h in
    let three : length (b ∷ c ∷ d ∷ buf) - 3 ≡ length buf = omega arith in
    let four : length (a ∷ b ∷ c ∷ d ∷ buf) - 3 ≡ suc (length buf) = omega arith in
    let behind : any_window (drop (length buf) s) ≡ any_window s =
      subst (λ n. any_window (drop n s) ≡ any_window s) three
        (any_window-tail (b ∷ c ∷ d ∷ buf) xs others) in
    subst (λ n. any_window (drop n (a ∷ s)) ≡ any_window (a ∷ s)) (sym four)
      (behind ∙ sym (ap (λ x. x || any_window s) first))

read_head-read_whole :
    (reads : List (Result IoError Bytes)) (buf : Bytes)
    → any_window buf ≡ false
    → read_head reads buf (length buf) ≡ read_whole reads buf
unfolding read_head read_whole
read_head-read_whole [] buf h = refl
read_head-read_whole (err e ∷ reads) buf h = refl
read_head-read_whole (ok [] ∷ reads) buf h = refl
read_head-read_whole (ok (b ∷ bytes) ∷ reads) buf h =
    let buf' = buf ++ b ∷ bytes in
    let tail = any_window-tail buf (b ∷ bytes) h in
    rw tail (elim (Bool-cases (any_window buf')) [
      | inl t ↦ rw t refl
      | inr f ↦ rw (f, read_head-read_whole reads buf' f) refl
    ])

-- Whatever comes in and in whatever pieces, the head is the one that a search of all the bytes at each
-- read would find, although the loop searches the new bytes and three before them alone.
pub read_head_lem :
    (reads : List (Result IoError Bytes)) → read_head reads [] 0 ≡ read_whole reads []
unfolding any_window
read_head_lem reads = read_head-read_whole reads [] refl
