-- ===== src/Config/Knobs/Live.antt =====
-- What connections read after a start or a reload.

use rfw.Base.{
  Option, arith, if◌then◌else◌, inl, inr, list_eq, max, nat_eq, none, refl, some, ℕ, ◌<◌, ◌==◌, ◌≡◌,
  ◌≤◌, ◌⊎◌,
}
use rfw.Config.Settings.{Settings, clamp_in_place, max_buffer_bytes, min_buffer_bytes}
use rfw.Config.Settings.Validate.{IsSafe, Nonzero?}
use rfw.Config.Settings.Clamp.{clamp_in_place-IsSafe, clamp_in_place_fixed}
use rfw.Config.Knobs.{
  KeepaliveConfig, KnobSnapshot, RuntimeKnobs, keepalive, or_zero, snapshot, socket_buffer, store,
  update,
}

abbrev pub KeepaliveOk : Option KeepaliveConfig → Type 0
KeepaliveOk none = Unit
KeepaliveOk (some c) = (0 < c.idle) × (0 < c.interval) × (0 < c.retries)

-- Values with which a connection can be built.
pub record IsUsable (k : KnobSnapshot) : Type 0 where
  pub buffer : (min_buffer_bytes ≤ k.buffer_bytes) × (k.buffer_bytes ≤ max_buffer_bytes)
  pub socket_buffer : Nonzero? k.socket_buffer_bytes
  pub connect : 0 < k.connect_timeout
  pub dns : 0 < k.dns_timeout
  pub keepalive_ok : KeepaliveOk k.keepalive

keepalive-KeepaliveOk : (k : RuntimeKnobs) → KeepaliveOk (keepalive k)
unfolding keepalive
keepalive-KeepaliveOk k = ground arith

store-IsUsable : (k : RuntimeKnobs) (s : Settings) → IsSafe s → IsUsable (snapshot (store k s))
unfolding snapshot
store-IsUsable k s v = record {
  buffer = v.buffer;
  socket_buffer = ground arith;
  connect = omega arith;
  dns = omega arith;
  keepalive_ok = keepalive-KeepaliveOk (store k s);
}

-- Whatever settings a reload brings, no connection is built from a zero or oversized buffer, a zero
-- timeout or a zero keepalive period.
pub update-IsUsable : (k : RuntimeKnobs) (s : Settings) → IsUsable (snapshot (update k s))
unfolding update
update-IsUsable k s = store-IsUsable k (clamp_in_place s) (clamp_in_place-IsSafe s)

-- The keepalive that settings ask for.
abbrev pub keepalive_of : Settings → Option KeepaliveConfig
keepalive_of s =
    if s.keepalive_idle_secs == 0
    then none
    else some (record {
      idle = s.keepalive_idle_secs;
      interval = s.keepalive_interval_secs;
      retries = s.keepalive_retries;
    })

max_one : (n : ℕ) → 0 < n → max n 1 ≡ n
max_one n h = omega arith

socket_buffer-or_zero :
    (k : RuntimeKnobs) (o : Option ℕ)
    → Nonzero? o
    → k.socket_buffer_bytes ≡ or_zero o
    → socket_buffer k ≡ o
unfolding socket_buffer
socket_buffer-or_zero k none h e = ground arith
socket_buffer-or_zero k (some n) h e = ground arith

keepalive-store :
    (k : RuntimeKnobs) (s : Settings)
    → (s.keepalive_idle_secs ≡ 0) ⊎ ((0 < s.keepalive_interval_secs) × (0 < s.keepalive_retries))
    → keepalive (store k s) ≡ keepalive_of s
unfolding keepalive
keepalive-store k s (inl off) = ground arith
keepalive-store k s (inr (h, l)) =
    rw (max_one s.keepalive_interval_secs h, max_one s.keepalive_retries l)

-- Settings within the limits reach the connections unchanged.
pub snapshot-update :
    (k : RuntimeKnobs) (s : Settings)
    → IsSafe s
    → snapshot (update k s) ≡ record {
      buffer_bytes = s.buffer_bytes;
      socket_buffer_bytes = s.socket_buffer_bytes;
      use_splice = s.use_splice;
      connect_timeout = s.connect_timeout_secs;
      dns_timeout = s.dns_timeout_secs;
      keepalive = keepalive_of s;
    }
unfolding update snapshot
snapshot-update k s v =
    let k' = store k s in
    rw (clamp_in_place_fixed s v) (λ i. record {
      buffer_bytes = s.buffer_bytes;
      socket_buffer_bytes = socket_buffer-or_zero k' s.socket_buffer_bytes v.socket_buffer refl i;
      use_splice = s.use_splice;
      connect_timeout = max_one s.connect_timeout_secs v.connect i;
      dns_timeout = max_one s.dns_timeout_secs v.dns i;
      keepalive = keepalive-store k s v.keepalive i;
    })
