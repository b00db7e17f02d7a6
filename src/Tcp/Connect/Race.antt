-- ===== src/Tcp/Connect/Race.antt =====
-- The race of the attempts to connect.

use rfw.Base.{
  All, List, Option, Option-cases, Result, [], ap, arith, get_elem?, inl, inr, none, ok, refl, some,
  subst, suc, sym, zero, ℕ, ◌*◌, ◌++◌, ◌+◌, ◌∙◌, ◌∷◌, ◌≡◌, ◌≤◌, ◌⊎◌,
}
use rfw.Net.{SocketAddr}
use rfw.Tcp.Connect.{
  Answer, Attempt, ConnectError, Joins, all_joined, attempt, connect_attempt_delay, connect_racing,
  join_loop, join_next, no_addresses, opens, spawned,
}

abbrev pub In : Attempt → List Attempt → Type 0
In a [] = ⊥
In a (b ∷ l) = (a ≡ b) ⊎ In a l

In-middle :
    (o a : Attempt) (before after : List Attempt)
    → In o (before ++ a ∷ after)
    → (o ≡ a) ⊎ In o (before ++ after)
In-middle o a [] after h = h
In-middle o a (b ∷ before) after (inl e) = inr (inl e)
In-middle o a (b ∷ before) after (inr h) = elim (In-middle o a before after h) [
  | inl e ↦ inl e
  | inr m ↦ inr (inr m)
]

In-append :
    (o a : Attempt) (before after : List Attempt)
    → In o (before ++ after)
    → In o (before ++ a ∷ after)
In-append o a [] after h = inr h
In-append o a (b ∷ before) after (inl e) = inl e
In-append o a (b ∷ before) after (inr h) = inr (In-append o a before after h)

In-here : (a : Attempt) (before after : List Attempt) → In a (before ++ a ∷ after)
In-here a [] after = inl refl
In-here a (b ∷ before) after = inr (In-here a before after)

All-In : (P : Attempt → Type 0) (o : Attempt) (l : List Attempt) → All P l → In o l → P o
All-In P o [] h m = absurd m
All-In P o (a ∷ l) (p, h) (inl e) = subst P (sym e) p
All-In P o (a ∷ l) (p, h) (inr m) = All-In P o l h m

none-some : {f : ConnectError} → ◌≡◌ {A = Option ConnectError} none (some f) → ⊥
none-some e = cc

-- The connection is the one of a task that succeeded, no later than `most`.
abbrev pub Won : List Attempt → Result ConnectError SocketAddr → ℕ → Type 0
Won pool r most =
    (a : Attempt) × In a pool × (a.failure ≡ none) × (r ≡ ok a.address) × (a.ended_at ≤ most)

join_loop-Won :
    (pool done : List Attempt) (last_err : ConnectError) (o : Attempt)
    → Joins pool done
    → In o pool
    → o.failure ≡ none
    → Won pool (join_loop done last_err) o.ended_at
unfolding join_loop
join_loop-Won _ _ last_err o all_joined h opens_it = absurd h
join_loop-Won _ _ last_err o (join_next before a after done first order) h opens_it =
    let place = In-middle o a before after h in
    elim (Option-cases a.failure) [
      | inl e ↦
          let early : a.ended_at ≤ o.ended_at = elim place [
            | inl same ↦ subst (λ x. a.ended_at ≤ x.ended_at) (sym same) (omega arith)
            | inr m ↦ All-In (λ b. a.ended_at ≤ b.ended_at) o (before ++ after) first m
          ] in
          (a, In-here a before after, e, rw e refl, early)
      | inr (f, e) ↦ elim place [
        | inl same ↦ absurd (none-some (sym opens_it ∙ ap (λ x. x.failure) same ∙ e))
        | inr m ↦
            let (w, i, fine, r, early) =
              join_loop-Won (before ++ after) done f o order m opens_it in
            (w, In-append w a before after i, fine, rw e r, early)
      ]
    ]

spawned-In :
    (connect_timeout i k : ℕ) (addrs : List (SocketAddr × Answer)) (addr : SocketAddr)
    (answer : Answer)
    → get_elem? addrs k ≡ some (addr, answer)
    → In
        (attempt connect_timeout (connect_attempt_delay * (i + k)) addr answer)
        (spawned connect_timeout i addrs)
unfolding spawned
spawned-In t i k [] addr answer e = cc
spawned-In t i zero ((b, x) ∷ addrs) addr answer e =
    let start : i + 0 ≡ i = omega arith in inl (cc (e, start))
spawned-In t i (suc k) ((b, x) ∷ addrs) addr answer e =
    let later : i + 1 + k ≡ i + suc k = omega arith in
    inr (
      subst (λ n. In (attempt t (connect_attempt_delay * n) addr answer) (spawned t (i + 1) addrs))
        later (spawned-In t (i + 1) k addrs addr answer e))

attempt-opens :
    (t stagger d : ℕ) (addr : SocketAddr)
    → d ≤ t
    → attempt t stagger addr (opens d)
      ≡ record { address = addr; ended_at = stagger + d; failure = none }
unfolding attempt
attempt-opens t stagger d addr fits = ground arith

-- When the attempts end in an order in which none ends before an earlier one, and an address opens
-- within the timeout, a connection is made: to an address whose attempt succeeds, and no later than
-- that address opens, counted from the stagger of 250 ms for each address before it.
pub connect_racing_lem :
    (connect_timeout i d : ℕ) (addrs : List (SocketAddr × Answer)) (addr : SocketAddr)
    (done : List Attempt)
    → Joins (spawned connect_timeout 0 addrs) done
    → get_elem? addrs i ≡ some (addr, opens d)
    → d ≤ connect_timeout
    → Won (spawned connect_timeout 0 addrs) (connect_racing done) (connect_attempt_delay * i + d)
unfolding connect_racing
connect_racing_lem t i d addrs addr done order e fits =
    let o : Attempt = record {
      address = addr;
      ended_at = connect_attempt_delay * i + d;
      failure = none;
    } in
    let from_zero : 0 + i ≡ i = omega arith in
    let same : attempt t (connect_attempt_delay * (0 + i)) addr (opens d) ≡ o =
      ap (λ n. attempt t (connect_attempt_delay * n) addr (opens d)) from_zero
      ∙ attempt-opens t (connect_attempt_delay * i) d addr fits in
    let place : In o (spawned t 0 addrs) =
      subst (λ x. In x (spawned t 0 addrs)) same (spawned-In t 0 i addrs addr (opens d) e) in
    join_loop-Won (spawned t 0 addrs) done no_addresses o order place refl
