-- ===== src/Udp/Errors.antt =====
-- Errors of sockets, and `classify_udp_err`, `is_fd_exhaustion`, `LogGate` and `fd_plan` of
-- `src/udp.rs`.

use rfw.Base.{
  Bool, Option, false, if◌then◌else◌, leb, list_eq, ltb, min, nat_eq, none, some, true, ℕ, ◌+◌, ◌-◌,
  ◌==◌, ◌||◌,
}
use rfw.Stats.{IcmpKind}

-- The kinds of `std::io::ErrorKind` that the program tells apart; `other_kind` is any other.
pub data ErrorKind : Type 0 where
  would_block interrupted connection_refused connection_reset connection_aborted : ErrorKind
  host_unreachable network_unreachable not_connected timed_out other_kind : ErrorKind

-- `raw_os_error` is the number of the operating system, if the error has one.
pub record IoError : Type 0 where
  pub error_kind : ErrorKind
  pub raw_os_error : Option ℕ

pub data UdpErr : Type 0 where
  would_block transient fatal : UdpErr
  icmp : IcmpKind → UdpErr

unfoldable pub classify_kind : ErrorKind → UdpErr
classify_kind ErrorKind.would_block = UdpErr.would_block
classify_kind interrupted = transient
classify_kind connection_refused = icmp IcmpKind.port_unreachable
classify_kind connection_reset = icmp IcmpKind.port_unreachable
classify_kind host_unreachable = icmp IcmpKind.host_unreachable
classify_kind network_unreachable = icmp IcmpKind.network_unreachable
classify_kind _ = fatal

abbrev pub classify_udp_err : IoError → UdpErr
unfolding classify_kind
classify_udp_err e = classify_kind e.error_kind

abbrev pub is_would_block : IoError → Bool
is_would_block e = elim e.error_kind [ ErrorKind.would_block ↦ true | _ ↦ false ]

abbrev pub os_error_is : ℕ → IoError → Bool
os_error_is n e = elim e.raw_os_error [ none ↦ false | some m ↦ m == n ]

-- `EMFILE` and `ENFILE` of Linux.
unfoldable pub is_fd_exhaustion : IoError → Bool
is_fd_exhaustion e = os_error_is 24 e || os_error_is 23 e

-- A rate limit for one warning. Instants in milliseconds.
pub record LogGate : Type 0 where
  pub last : Option ℕ
  pub suppressed : ℕ

abbrev is_recent : Option ℕ → ℕ → ℕ → Bool
is_recent none now spacing = false
is_recent (some t) now spacing = ltb (now - t) spacing

-- `LogGate::check`, at `now`.
unfoldable pub check : LogGate → ℕ → ℕ → LogGate × Option ℕ
check g spacing now =
    if is_recent g.last now spacing
    then (record g { suppressed = g.suppressed + 1 }, none)
    else (record { last = some now; suppressed = 0 }, some g.suppressed)

-- Counters of one batch.
pub record Batch : Type 0 where
  pub bytes : ℕ
  pub datagrams : ℕ
  pub dropped : ℕ

abbrev pub no_batch : Batch
no_batch = record { bytes = 0; datagrams = 0; dropped = 0 }

abbrev pub fd_headroom : ℕ
fd_headroom = 256

-- `to` and `sufficient`.
pub data FdPlan : Type 0 where
  enough short : FdPlan
  raise : ℕ → Bool → FdPlan

unfoldable pub fd_plan : ℕ → ℕ → ℕ → FdPlan
fd_plan soft hard needed =
    if leb needed soft
    then enough
    else if ltb soft hard
    then raise (min hard needed) (leb needed (min hard needed))
    else short
