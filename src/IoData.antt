-- ===== src/IoData.antt =====
-- ChattingServer_v1.1/NetworkLib/IoData.h, and the receiving and sending half of
-- ChattingServer_v1.1/ChattingServer/Session.cpp: the buffers between the socket and the packets.
pub mod Payload
pub mod RoundTrip
pub mod Receive
pub mod Client
pub mod Overrun
use tcp_socket_chatting_serv.Base.{
  ℕ, ◌+◌, List, leb, take, fill, length, Result, ok, ◌>>=◌, ◌>>◌, guard, invalid_parameter,
  out_of_range,
}
use tcp_socket_chatting_serv.Stream.{Stream, sock_buf_size, initialize, splice}
use tcp_socket_chatting_serv.Packet.Types.{Packet}
use tcp_socket_chatting_serv.Packet.Wire.{encode}
use tcp_socket_chatting_serv.Packet.Factory.{get_packet}

-- A `WSABUF`: the array that `buf` points to, and `len`.
pub record WsaBuf : Type 0 where
  pub buf : List ℕ
  pub len : ℕ

-- `IoData::SetData`, of a new `IoData`, whose buffer is cleared. It asks for four bytes more than the
-- stream holds.
unfoldable pub set_data : Stream → Result WsaBuf
set_data s = do
  guard (leb s.offset sock_buf_size) invalid_parameter
  ok (record { buf = splice 0 (take s.offset s.stream) (fill sock_buf_size 0); len = s.offset + 4 })

-- The bytes that `WSASend` takes out of a buffer: `len` of them, from its front.
unfoldable pub sent : WsaBuf → Result (List ℕ)
sent w = do guard (leb w.len (length w.buf)) out_of_range; ok (take w.len w.buf)

-- `Session::SendPacket`, up to what it hands to the socket.
unfoldable pub send_packet : Packet → Result (List ℕ)
unfolding set_data sent
send_packet packet = do w ← set_data (encode packet initialize); sent w

-- `Session::OnRecv`: the first `io_size` bytes of the receive buffer, as a packet.
unfoldable pub on_recv : ℕ → List ℕ → ℕ → Result Packet
on_recv junk buffer io_size = do
  guard (leb io_size sock_buf_size) invalid_parameter
  get_packet junk (splice 0 (take io_size buffer) (fill sock_buf_size 0)) io_size
