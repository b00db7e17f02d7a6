-- ===== src/Tcp/Binding.antt =====
-- What is told of the attempts to bind.

use rfw.Text.{Text}
use rfw.Base.{List, [], ap, arith, length, min, refl, suc, ℕ, ◌++◌, ◌+◌, ◌∷◌, ◌≡◌, ◌≤◌}
use rfw.Notify.Event.{Event, bind_failed}
use rfw.Tcp.{Bound, bind, bind_loop, recovered, u32_max}

-- The failures, numbered from `n + 1` on.
abbrev pub failures_from : Text → Text → ℕ → List Text → List Event
failures_from label addr n [] = []
failures_from label addr n (e ∷ errors) =
    bind_failed label addr e (n + 1) ∷ failures_from label addr (n + 1) errors

bind_loop_lem :
    (label addr : Text) (n : ℕ) (errors : List Text) (next : Bound)
    → n + length errors ≤ u32_max
    → bind_loop label addr n errors next ≡ (failures_from label addr n errors, n + length errors)
unfolding bind_loop
bind_loop_lem label addr n [] next h = ap (λ k. ([], k)) (omega arith)
bind_loop_lem label addr n (e ∷ errors) next h =
    let exact : min (n + 1) u32_max ≡ n + 1 = omega (arith, h) in
    let rest = bind_loop_lem label addr (n + 1) errors next (omega (arith, h)) in
    let sum : n + 1 + length errors ≡ n + suc (length errors) = omega arith in
    rw (exact, rest, sum) refl

-- With fewer failures than a u32 counts, each is told with its number, and a bind that succeeds after
-- failures is told with how many they were; a first attempt that succeeds, and a cancelled wait, add
-- nothing.
pub bind_lem :
    (label addr : Text) (errors : List Text) (next : Bound)
    → length errors ≤ u32_max
    → bind label addr errors next
      ≡ failures_from label addr 0 errors ++ recovered label addr (length errors) next
unfolding bind
bind_lem label addr errors next h =
    let sum : 0 + length errors ≡ length errors = omega arith in
    rw (bind_loop_lem label addr 0 errors next (omega (arith, h)), sum) refl
