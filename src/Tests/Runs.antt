-- ===== src/Tests/Runs.antt =====
-- Runs of the text functions, the printers and the parsers on fixed inputs.

use rfw.Text.Decimal.{parse_uint, pos_overflow, show, u16_max}
use rfw.Text.{codes, rsplit_once, split, split_once}
use rfw.Base.{[], err, ok, refl, some, ◌∷◌, ◌≡◌}
use rfw.Config.Forwarder.{ForwarderConfig, label, udp}
use rfw.Config.PortSpan.{len, parse, range, show_span, single}
use rfw.Config.Spec.{describe, length_mismatch, new}
use rfw.Config.Entry.{parse_forwarder_spec}

one_udp_port :
    parse_forwarder_spec (codes "0.0.0.0:1053:1.1.1.1:53/UDP")
    ≡ ok (record {
      local_host = codes "0.0.0.0";
      local = single 1053;
      remote_host = codes "1.1.1.1";
      remote = single 53;
      protocol = udp;
    })
unfolding parse_forwarder_spec rsplit_once split parse split_once parse_uint new len
one_udp_port = refl

range_on_one_side :
    parse_forwarder_spec (codes "h:30000-30050:r:80")
    ≡ err (
        length_mismatch
          (codes "h:30000-30050->r:80")
          (record { start = 30000; end = 30050 })
          51
          (single 80)
          1)
unfolding parse_forwarder_spec rsplit_once split parse split_once parse_uint new len range describe
    show_span show
range_on_one_side = refl

abbrev sample : ForwarderConfig
sample = record {
  local_host = codes "0.0.0.0";
  local_port = 1053;
  remote_host = codes "1.1.1.1";
  remote_port = 53;
  protocol = udp;
}

label_of_sample : label sample ≡ codes "0.0.0.0:1053->1.1.1.1:53/udp"
unfolding label show
label_of_sample = refl

reads_a_range :
    parse (codes "30000-30050") (codes "local") ≡ ok (record { start = 30000; end = 30050 })
unfolding parse range len split_once parse_uint
reads_a_range = refl

reads_a_signed_single : parse (codes "+80") (codes "local") ≡ ok (single 80)
unfolding parse split_once parse_uint
reads_a_signed_single = refl

split_ports : split b':' (codes "h:80:r:1") ≡ codes "h" ∷ codes "80" ∷ codes "r" ∷ codes "1" ∷ []
unfolding split
split_ports = refl

rsplit_last : rsplit_once b'/' (codes "a/b/udp") ≡ some (codes "a/b", codes "udp")
unfolding rsplit_once
rsplit_last = refl

parse_plus : parse_uint u16_max (codes "+80") ≡ ok 80
unfolding parse_uint
parse_plus = refl

parse_too_large : parse_uint u16_max (codes "65536") ≡ err pos_overflow
unfolding parse_uint
parse_too_large = refl

show_port : show 30050 ≡ codes "30050"
unfolding show
show_port = refl
