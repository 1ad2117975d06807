-- ===== src/RawSocket.antt =====
-- src/services/utils.rs: the hardware address of an interface, and the raw sockets of the DHCP server.
-- What netlink and the system calls give is an argument.
use rustyrouter.Prelude.{
  ℕ, List, [], ◌∷◌, ◌++◌, Bool, true, false, Option, some, none, ◌≡◌, refl, ◌==◌, if◌then◌else◌,
  any, length, All, Bool-cases, inl, inr, arith, Option-cases,
}
use rustyrouter.Prelude.Text.{Text}
use rustyrouter.Server.Start.{FdEvent, open_fds}

pub data LinkAttribute : Type 0 where
  address : List ℕ → LinkAttribute
  other_attribute : LinkAttribute

-- The answer to the request for a link of a name.
pub data LinkAnswer : Type 0 where
  link : List LinkAttribute → LinkAnswer
  no_link request_failed : LinkAnswer

pub data MacError : Type 0 where
  no_connection not_found netlink_failed no_hardware_address : MacError

pub data MacResult : Type 0 where
  mac : List ℕ → MacResult
  no_mac : MacError → MacResult

-- The loop over the attributes.
unfoldable pub first_mac : List LinkAttribute → MacResult
first_mac [] = no_mac no_hardware_address
first_mac (other_attribute ∷ rest) = first_mac rest
first_mac (address mac_vec ∷ rest) = if length mac_vec == 6 then mac mac_vec else first_mac rest

abbrev mac_in : LinkAnswer → MacResult
mac_in no_link = no_mac not_found
mac_in request_failed = no_mac netlink_failed
mac_in (link attributes) = first_mac attributes

unfoldable pub get_interface_mac : Bool → LinkAnswer → MacResult
unfolding first_mac
get_interface_mac connected answer = if connected then mac_in answer else no_mac no_connection

pub record RawOps : Type 0 where
  pub new_socket : Option ℕ
  pub set_nonblocking : Bool
  -- `if_nametoindex`: 0 if there is no such interface.
  pub if_index : ℕ
  pub bind : Bool

pub data Opened : Type 0 where
  raw_fd : ℕ → Opened
  open_failed panicked : Opened

-- A socket that goes out of scope is closed.
abbrev dropped : ℕ → Opened → List FdEvent × Opened
dropped fd result = (FdEvent.opened fd ∷ FdEvent.closed fd ∷ [], result)

-- `CString::new` refuses a name with a zero byte, and its result is unwrapped.
unfoldable pub open_raw_socket : RawOps → Text → List FdEvent × Opened
open_raw_socket ops ifname = elim ops.new_socket [
  | none ↦ ([], open_failed)
  | some fd ↦ elim ops.set_nonblocking [
    | false ↦ dropped fd open_failed
    | true ↦ elim (any (λ c. c == 0) ifname) [
      | true ↦ dropped fd panicked
      | false ↦ elim (ops.if_index == 0) [
        | true ↦ dropped fd open_failed
        | false ↦ elim ops.bind [
          | true ↦ (FdEvent.opened fd ∷ [], raw_fd fd)
          | false ↦ dropped fd open_failed
        ]
      ]
    ]
  ]
]

-- What a wait for the socket and the attempt after it give; after a failed wait there is no attempt.
pub data Attempt : Type 0 where
  wait_failed would_block io_failed : Attempt
  done : List ℕ → Attempt

pub data ReadResult : Type 0 where
  packet : List ℕ → ReadResult
  read_failed : ReadResult

-- `none` for an attempt that would block.
unfoldable pub try_read_raw : Attempt → Option ReadResult
try_read_raw (done bytes) = some (packet bytes)
try_read_raw would_block = none
try_read_raw _ = some read_failed

-- The result and the attempts that are left; none while it still waits.
unfoldable pub read_raw_packet : List Attempt → Option (ReadResult × List Attempt)
unfolding try_read_raw
read_raw_packet [] = none
read_raw_packet (a ∷ rest) = elim (try_read_raw a) [
  | none ↦ read_raw_packet rest
  | some result ↦ some (result, rest)
]

-- Whether the sending of a frame has ended, with the frame sent or given up after an error.
unfoldable pub try_write_raw : Attempt → Option Bool
try_write_raw (done bytes) = some true
try_write_raw would_block = none
try_write_raw _ = some false

unfoldable pub send_raw_packet : List Attempt → Option Bool
unfolding try_write_raw
send_raw_packet [] = none
send_raw_packet (a ∷ rest) = elim (try_write_raw a) [
  | none ↦ send_raw_packet rest
  | some sent ↦ some sent
]

-- The descriptors that are open after an attempt to open a socket.
abbrev pub fds_after : Opened → List ℕ → List ℕ
fds_after (raw_fd fd) fds = fd ∷ fds
fds_after _ fds = fds

-- However the opening of a raw socket ends, a panic on the interface's name included, the one
-- descriptor that is open afterwards is that of a socket that is handed out.
pub open_raw_socket-open_fds :
    (ops : RawOps) (ifname : Text) (fds : List ℕ)
    → open_fds (open_raw_socket ops ifname).0 fds ≡ fds_after (open_raw_socket ops ifname).1 fds
unfolding open_raw_socket open_fds
open_raw_socket-open_fds ops ifname fds = elim (Option-cases ops.new_socket) [
  | inl e ↦ rw (e, open_raw_socket) refl
  | inr (fd, e) ↦ elim (Bool-cases ops.set_nonblocking) [
    | inr a ↦ rw (e, a, open_raw_socket) (ground arith)
    | inl a ↦ elim (Bool-cases (any (λ c. c == 0) ifname)) [
      | inl b ↦ rw (e, a, b, open_raw_socket) (ground arith)
      | inr b ↦ elim (Bool-cases (ops.if_index == 0)) [
        | inl c ↦ rw (e, a, b, c, open_raw_socket) (ground arith)
        | inr c ↦ elim (Bool-cases ops.bind) [
          | inl g ↦ rw (e, a, b, c, g, open_raw_socket) refl
          | inr g ↦ rw (e, a, b, c, g, open_raw_socket) (ground arith)
        ]
      ]
    ]
  ]
]

-- A packet is read after any number of waits for nothing, and what comes after it is left to read.
pub read_raw_packet-would_block :
    (waits rest : List Attempt) (bytes : List ℕ)
    → All (λ a. a ≡ would_block) waits
    → read_raw_packet (waits ++ done bytes ∷ rest) ≡ some (packet bytes, rest)
unfolding read_raw_packet
read_raw_packet-would_block [] rest bytes h = refl
read_raw_packet-would_block (a ∷ waits) rest bytes h =
    rw (h.0, read_raw_packet) (read_raw_packet-would_block waits rest bytes h.1)
