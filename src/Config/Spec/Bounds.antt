-- ===== src/Config/Spec/Bounds.antt =====
-- `ForwarderSpec::new` and `expand` of `src/config.rs`: the ports of an entry.

use rfw.Text.Decimal.{u16_max}
use rfw.Text.{Text}
use rfw.Base.{
  arith, count_up, get_elem?, get_elem?-count_up, get_elem?-map, length, length-count_up,
  length-map, ok, some, subst, sym, ℕ, ◌%◌, ◌+◌, ◌<◌, ◌↔◌, ◌∙◌, ◌≡◌, ◌≤◌,
}
use rfw.Config.Forwarder.{Protocol}
use rfw.Config.PortSpan.{PortSpan, len, max_range_ports}
use rfw.Config.PortSpan.Bounds.{IsSpan, len_lem}
use rfw.Config.Spec.{ForwarderSpec, at_offset, expand, new}

-- Both sides are spans, of the same number of ports.
pub record IsSpec (s : ForwarderSpec) : Type 0 where
  pub local_ok : IsSpan s.local
  pub remote_ok : IsSpan s.remote
  pub aligned : len s.local ≡ len s.remote

-- `new` keeps its arguments, and succeeds exactly when both spans have the same number of ports.
pub new_iff :
    (lh : Text) (l : PortSpan) (rh : Text) (r : PortSpan) (p : Protocol) (s : ForwarderSpec)
    → (new lh l rh r p ≡ ok s) ↔ (
        (s ≡ record { local_host = lh; local = l; remote_host = rh; remote = r; protocol = p })
        × (len l ≡ len r))
unfolding new
new_iff lh l rh r p s = ground arith

pub new-IsSpec :
    (lh : Text) (l : PortSpan) (rh : Text) (r : PortSpan) (p : Protocol) (s : ForwarderSpec)
    → IsSpan l
    → IsSpan r
    → new lh l rh r p ≡ ok s
    → IsSpec s
new-IsSpec lh l rh r p s vl vr e =
    let (same, eq) = (new_iff lh l rh r p s).0 e in
    subst IsSpec (sym same) (record { local_ok = vl; remote_ok = vr; aligned = eq })

len-bounds : {s : PortSpan} → IsSpan s → len s ≤ max_range_ports
len-bounds v = omega (arith, len_lem v.ordered v.fits)

-- One forwarder for each local port.
pub length-expand : (s : ForwarderSpec) → IsSpec s → length (expand s) ≡ len s.local
unfolding expand
length-expand s v =
    rw
      (
        length-map (at_offset s) (count_up 0 (len s.local % (u16_max + 1))),
        length-count_up 0 (len s.local % (u16_max + 1)),
      )
      (omega (arith, len-bounds v.local_ok))

-- The `k`th forwarder of an entry joins the `k`th local port to the `k`th remote port, with the
-- entry's hosts and protocol; neither port wraps or leaves its span.
pub expand_port_for_port :
    (s : ForwarderSpec) (k : ℕ)
    → IsSpec s
    → k < len s.local
    → (get_elem? (expand s) k
        ≡ some (record {
          local_host = s.local_host;
          local_port = s.local.start + k;
          remote_host = s.remote_host;
          remote_port = s.remote.start + k;
          protocol = s.protocol;
        }))
      × (s.local.start + k ≤ s.local.end)
      × (s.remote.start + k ≤ s.remote.end)
unfolding expand
expand_port_for_port s k v h =
    let lo = len_lem v.local_ok.ordered v.local_ok.fits in
    let ro = len_lem v.remote_ok.ordered v.remote_ok.fits in
    let eq = v.aligned in
    (
      get_elem?-map (at_offset s) (count_up 0 (len s.local % (u16_max + 1))) k (
            get_elem?-count_up 0 (len s.local % (u16_max + 1)) k
              (omega (arith, len-bounds v.local_ok)))
          ∙ ground arith,
      omega arith,
      omega arith,
    )
