-- ===== src/Legacy/Threads.antt =====
-- ChattingServer_v1.0/ChattingServer/ChatServer.h and ChatServer.cpp: a round of the accepter and of a
-- worker.
use tcp_socket_chatting_serv.Base.{
  ℕ, Bool, true, false, ◌&&◌, ◌||◌, not, List, [], Option, none, some, ◌==◌, if◌then◌else◌, Result,
  ok, ◌>>=◌,
}
use tcp_socket_chatting_serv.Legacy.User.{IoOperation, io_recv, io_send, io_close, bind_recv}
use tcp_socket_chatting_serv.Legacy.Manager.{
  new_manager, client_at, put_client, create_client, close_client,
}
use tcp_socket_chatting_serv.Legacy.Packets.{set_packet}
use tcp_socket_chatting_serv.Legacy.Process.{Server, classify_packet}

-- `InitializeManagers`, with the threads running.
unfoldable pub start_server : ℕ → Server
unfolding new_manager
start_server max = record { manager = new_manager max; packet_queue = []; is_worker_run = true }

-- A round of `AccepterThread` with what `accept` gave, `none` for `INVALID_SOCKET`: the server, and the
-- socket that was closed again.
unfoldable pub accepter_round : Option ℕ → Bool → Bool → Server → Result (Server × Option ℕ)
accepter_round none bound recv_ok s = ok (s, none)
accepter_round (some socket) bound recv_ok s = do
  (m, created) ← create_client socket bound recv_ok s.manager
  ok (record s { manager = m }, if created then none else some socket)

-- `OnReceive` and `OnClose`.
unfoldable pub on_receive : ℕ → ℕ → List ℕ → Server → Result Server
unfolding set_packet classify_packet
on_receive index size buffer s = classify_packet (set_packet index size buffer) s

unfoldable pub on_close : ℕ → Server → Result Server
unfolding close_client
on_close index s = do m ← close_client index s.manager; ok (record s { manager = m })

-- What `GetQueuedCompletionStatus` gives: its result, the size, the client's index, the operation of the
-- overlapped structure if that is not null, and the bytes in the client's receive buffer.
pub record Completion : Type 0 where
  pub success : Bool
  pub io_size : ℕ
  pub index : ℕ
  pub overlapped : Option IoOperation
  pub buffer : List ℕ

-- The branch for received bytes: the packet, and the next receive.
unfoldable pub received : Completion → Bool → Server → Result Server
unfolding on_receive client_at put_client bind_recv
received c recv_ok s = do
  s' ← on_receive c.index c.io_size c.buffer s
  u ← client_at s'.manager c.index
  let (u', bound) = bind_recv recv_ok u
  ok (record s' { manager = put_client s'.manager c.index u' })

unfoldable pub completed : Completion → Bool → IoOperation → Server → Result Server
unfolding received on_close
completed c recv_ok io_send s = ok s
completed c recv_ok io_recv s = received c recv_ok s
completed c recv_ok io_close s = on_close c.index s

unfoldable pub handle : Completion → Bool → Option IoOperation → Server → Result Server
unfolding completed on_close
handle c recv_ok none s =
    ok (if c.success && (c.io_size == 0) then record s { is_worker_run = false } else s)
handle c recv_ok (some operation) s =
    if not c.success || (c.io_size == 0)
    then on_close c.index s
    else completed c recv_ok operation s

-- A round of `WorkerThread`.
unfoldable pub worker_round : Completion → Bool → Server → Result Server
unfolding handle
worker_round c recv_ok s = if s.is_worker_run then handle c recv_ok c.overlapped s else ok s
