-- ===== src/Config/Yaml/Bounds.antt =====
-- What a YAML entry becomes.

use rfw.Text.Decimal.{show, u16_max}
use rfw.Base.{
  >>=-eq-ok, Bool-cases, Option, arith, err, if◌then◌else◌, inl, inr, ltb, ltb→le, map_err-eq-ok,
  none, ok, ok-injective, refl, some, subst, ℕ, ◌+◌, ◌-◌, ◌<◌, ◌≡◌, ◌≤◌,
}
use rfw.Config.Forwarder.{endpoint}
use rfw.Config.PortSpan.{PortSpan, len, max_range_ports, range}
use rfw.Config.PortSpan.Bounds.{IsSpan, len_lem, range-IsSpan, range_ok, single-IsSpan}
use rfw.Config.Spec.{ForwarderSpec, past_last_port}
use rfw.Config.Spec.Bounds.{IsSpec, new-IsSpec, new_iff}
use rfw.Config.Yaml.{RawForwarder, into_spec, local_span, remote_end, remote_span, shown}

abbrev IsPort? : Option ℕ → Type 0
IsPort? none = Unit
IsPort? (some p) = p ≤ u16_max

-- The ports of an entry are `u16`.
pub record IsRaw (r : RawForwarder) : Type 0 where
  pub local_fits : r.local_port ≤ u16_max
  pub local_end_fits : IsPort? r.local_port_end
  pub remote_fits : r.remote_port ≤ u16_max
  pub remote_end_fits : IsPort? r.remote_port_end

local_span-IsSpan :
    (r : RawForwarder) (o : Option ℕ) (s : PortSpan)
    → r.local_port ≤ u16_max
    → IsPort? o
    → local_span r o ≡ ok s
    → IsSpan s
unfolding local_span
local_span-IsSpan r none s h k e = subst IsSpan (ok-injective e) (single-IsSpan r.local_port h)
local_span-IsSpan r (some end) s h k e =
    range-IsSpan r.local_port end h k (map_err-eq-ok _ (range r.local_port end) e)

remote_end-le :
    (r : RawForwarder) (local : PortSpan) (o : Option ℕ) (n : ℕ)
    → IsPort? o
    → remote_end r local o ≡ ok n
    → n ≤ u16_max
unfolding remote_end
remote_end-le r local none n h e = ground arith
remote_end-le r local (some m) n h e = ground arith

remote_span-IsSpan :
    (r : RawForwarder) (local : PortSpan) (o e : Option ℕ) (s : PortSpan)
    → r.remote_port ≤ u16_max
    → IsPort? e
    → remote_span r local o e ≡ ok s
    → IsSpan s
unfolding remote_span
remote_span-IsSpan r local none none s h k q =
    subst IsSpan (ok-injective q) (single-IsSpan r.remote_port h)
remote_span-IsSpan r local none (some end) s h k q = cc
remote_span-IsSpan r local (some end) e s h k q =
    let (last, read, made) = >>=-eq-ok (remote_end r local e) _ q in
    range-IsSpan r.remote_port last h (remote_end-le r local e last k read)
      (map_err-eq-ok _ (range r.remote_port last) made)

-- Every entry that is accepted has spans of `u16` ports on both sides, of equal length.
pub into_spec-IsSpec :
    (r : RawForwarder) (s : ForwarderSpec) → IsRaw r → into_spec r ≡ ok s → IsSpec s
unfolding into_spec
into_spec-IsSpec r s v h =
    let (local, local_ok, h') = >>=-eq-ok (local_span r r.local_port_end) _ h in
    let (remote, remote_ok, made) =
      >>=-eq-ok (remote_span r local r.local_port_end r.remote_port_end) _ h' in
    new-IsSpec r.local_host local r.remote_host remote r.protocol s
      (local_span-IsSpan r r.local_port_end local v.local_fits v.local_end_fits local_ok)
      (remote_span-IsSpan r local r.local_port_end r.remote_port_end remote v.remote_fits
        v.remote_end_fits remote_ok)
      made

remote_end_implied :
    (r : RawForwarder) (local : PortSpan) (n : ℕ)
    → len local ≡ n + 1
    → remote_end r local none ≡ (
        if ltb u16_max (r.remote_port + n)
        then err (past_last_port (shown r) (n + 1) r.remote_port)
        else ok (r.remote_port + n))
unfolding remote_end
remote_end_implied r local n h =
    let last : r.remote_port + (n + 1) - 1 ≡ r.remote_port + n = omega arith in
    rw (h, last) (ground arith)

-- The local ports as given, and as many ports from `remote_port` on.
abbrev pub port_for_port : RawForwarder → ℕ → ForwarderSpec
port_for_port r end = record {
  local_host = r.local_host;
  local = record { start = r.local_port; end = end };
  remote_host = r.remote_host;
  remote = record { start = r.remote_port; end = r.remote_port + (end - r.local_port) };
  protocol = r.protocol;
}

-- A YAML entry with a valid local range and no remote end maps its ports to as many ports from
-- `remote_port` on, and is refused exactly when these would run past 65535.
pub into_spec_implied :
    (r : RawForwarder) (end : ℕ)
    → IsRaw r
    → r.local_port_end ≡ some end
    → r.remote_port_end ≡ none
    → 0 < r.local_port
    → r.local_port ≤ end
    → end < r.local_port + max_range_ports
    → 0 < r.remote_port
    → let count = end - r.local_port + 1 in
      into_spec r ≡ (
        if ltb u16_max (r.remote_port + (end - r.local_port))
        then err (past_last_port (endpoint r.local_host (show r.local_port)) count r.remote_port)
        else ok (port_for_port r end))
unfolding into_spec
into_spec_implied r end v e e' h1 h2 h3 h4 =
    let fits : end ≤ u16_max = subst IsPort? e v.local_end_fits in
    let local : PortSpan = record { start = r.local_port; end = end } in
    let last = r.remote_port + (end - r.local_port) in
    let remote : PortSpan = record { start = r.remote_port; end = last } in
    let made = range_ok r.local_port end h1 h2 h3 fits in
    let count : len local ≡ end - r.local_port + 1 = len_lem h2 fits in
    let implied = remote_end_implied r local (end - r.local_port) count in
    elim (Bool-cases (ltb u16_max last)) [
      | inl past ↦ ground (arith, made, implied, past)
      | inr ends ↦
          let within : last ≤ u16_max = ltb→le u16_max last ends in
          let made' = range_ok r.remote_port last h4 (omega arith) (omega arith) within in
          let count' : len remote ≡ last - r.remote_port + 1 = len_lem (omega arith) within in
          let joined =
            (new_iff r.local_host local r.remote_host remote r.protocol (port_for_port r end)).1
              (refl, omega arith) in
          ground (arith, made, implied, made', joined, ends)
    ]
