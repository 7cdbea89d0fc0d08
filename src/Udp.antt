-- ===== src/Udp.antt =====
-- `UDPReceiver` of include/feed_handler/udp_receiver.hpp in its POSIX form. What the system calls
-- answer is a parameter; a socket is its descriptor, and `none` is `INVALID_SOCK`.
use quant_feed_handler.Base.{
  ℕ, List, ◌++◌, Option, none, some, Bool, true, false, length, take, drop, if◌then◌else◌,
}
use quant_feed_handler.Base.Int.{ℤ, pos, negsuc}
use quant_feed_handler.Protocol.{WireMessage, size_of_wire}

pub record UdpReceiver : Type 0 where
  pub sock : Option ℕ

abbrev pub unbound : UdpReceiver
unbound = record { sock = none }

-- The answers of `socket` and of `::bind`, which returns 0 when it succeeds.
pub record Sockets : Type 0 where
  pub socket : Option ℕ
  pub binds : ℕ → Bool

-- The result, and the descriptors that are closed on the way.
unfoldable pub close_socket : UdpReceiver → Option ℕ × UdpReceiver
close_socket r = (r.sock, unbound)

unfoldable pub bind_socket : Sockets → Option ℕ → Bool × UdpReceiver
bind_socket os none = (false, unbound)
bind_socket os (some fd) =
    if os.binds fd
    then (true, record { sock = some fd })
    else (false, (close_socket (record { sock = some fd })).1)

-- The socket options change nothing here.
unfoldable pub bind : Sockets → UdpReceiver → Bool × UdpReceiver
bind os r = bind_socket os os.socket

-- What a call of `recv` meets: a datagram, none yet, or an error.
pub data Arrival : Type 0 where
  datagram_of : List ℕ → Arrival
  would_block : Arrival
  fails : Arrival

-- A datagram fills the message from its start; what is longer than the message is cut off, and what
-- is shorter leaves the bytes behind it.
abbrev pub filled_with : List ℕ → WireMessage → WireMessage
filled_with d m = take size_of_wire d ++ drop (length (take size_of_wire d)) m

unfoldable pub receive_at : Arrival → WireMessage → ℤ × WireMessage
receive_at (datagram_of d) m = (pos (length (take size_of_wire d)), filled_with d m)
receive_at would_block m = (pos 0, m)
receive_at fails m = (negsuc 0, m)

abbrev pub receive_on : Option ℕ → Arrival → WireMessage → ℤ × WireMessage
receive_on none a m = (negsuc 0, m)
receive_on (some fd) a m = receive_at a m

unfoldable pub receive : UdpReceiver → Arrival → WireMessage → ℤ × WireMessage
receive r a m = receive_on r.sock a m
