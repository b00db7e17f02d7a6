-- ===== src/Config/Forwarder.antt =====
-- `Protocol` and `ForwarderConfig` of `src/config.rs`.

use rfw.Base.{Bool, Eq, [], arith, false, true, ℕ, ◌++◌, ◌↔◌, ◌∷◌, ◌≡◌}
use rfw.Text.{Text, codes}
use rfw.Text.Decimal.{show}

pub data Protocol : Type 0 where
  tcp udp : Protocol

abbrev pub as_str : Protocol → Text
as_str tcp = codes "tcp"
as_str udp = codes "udp"

abbrev pub protocol_beq : Protocol → Protocol → Bool
protocol_beq tcp tcp = true
protocol_beq udp udp = true
protocol_beq _ _ = false

pub protocol_beq_iff : (a b : Protocol) → (protocol_beq a b ≡ true) ↔ (a ≡ b)
protocol_beq_iff a b = ground arith

instance abbrev pub protocol_eq : Eq Protocol
protocol_eq = record { beq = protocol_beq; beq_iff = protocol_beq_iff }

-- Ports are `u16`.
pub record ForwarderConfig : Type 0 where
  pub local_host : Text
  pub local_port : ℕ
  pub remote_host : Text
  pub remote_port : ℕ
  pub protocol : Protocol

-- The suffix that only UDP endpoints show.
abbrev pub protocol_suffix : Protocol → Text
protocol_suffix tcp = []
protocol_suffix udp = b'/' ∷ as_str udp

-- `host:port`, as the source's `format!("{}:{}", host, port)`.
abbrev pub endpoint : Text → Text → Text
endpoint host port = host ++ b':' ∷ port

unfoldable pub label : ForwarderConfig → Text
label c =
    (endpoint c.local_host (show c.local_port)
      ++ b'-' ∷ b'>' ∷ endpoint c.remote_host (show c.remote_port))
    ++ protocol_suffix c.protocol

unfoldable pub local_addr : ForwarderConfig → Text
local_addr c = endpoint c.local_host (show c.local_port)
