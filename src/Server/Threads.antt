-- ===== src/Server/Threads.antt =====
-- The loops of the server's threads, a round at a time: ChatServer.cpp (accepter and workers),
-- LogicProcess.h and LogicProcess.cpp (logic), SendServer.h (sender).
use tcp_socket_chatting_serv.Base.{
  ℕ, Bool, false, not, ◌&&◌, ◌||◌, List, [], ◌∷◌, ◌++◌, Option, none, some, ◌==◌, if◌then◌else◌,
  Result, ok, ◌>>=◌,
}
use tcp_socket_chatting_serv.Packet.Types.{Packet}
use tcp_socket_chatting_serv.IoData.{send_packet, on_recv}
use tcp_socket_chatting_serv.Server.World.{World, RecvPackage, SendPackage, deref, invalid_socket}
use tcp_socket_chatting_serv.Server.Users.{Answers, bind_recv, create_user, remove_user_id}
use tcp_socket_chatting_serv.Server.Logic.{process}

-- `LogicProcess::PushPackage`.
unfoldable pub push_job : World → RecvPackage → World
push_job w pkg = record w { job_queue = w.job_queue ++ pkg ∷ [] }

-- A package on which `Empty` is false, taken apart; any other passes by.
unfoldable pub process_package : World → Option ℕ → Option Packet → Result World
process_package w (some s) (some packet) = process w s packet
process_package w _ _ = ok w

-- `PopPackage`, and the body of the loop in `RunProcess`.
unfoldable pub process_job : World → List RecvPackage → Result World
process_job w [] = ok w
process_job w (pkg ∷ rest) = process_package (record w { job_queue = rest }) pkg.session pkg.packet

unfoldable pub run_process : World → Result World
run_process w = if w.process_run then process_job w w.job_queue else ok w

-- `SendPacket` of a package's session, and the same loop of `SendServer::Run`.
unfoldable pub send_to : World → Option ℕ → Option Packet → Result World
send_to w (some s) (some packet) = do
  u ← deref w s
  bytes ← send_packet packet
  ok (record w { sent = w.sent ++ (u.session.socket, bytes) ∷ [] })
send_to w _ _ = ok w

unfoldable pub send_job : World → List SendPackage → Result World
send_job w [] = ok w
send_job w (pkg ∷ rest) = send_to (record w { packages = rest }) pkg.session pkg.packet

unfoldable pub run_send : World → Result World
run_send w = if w.send_run then send_job w w.packages else ok w

-- A round of `AccepterThread`: `accept` gave `socket`, and `p` is the address of a new user.
unfoldable pub accept_one : World → ℕ → ℕ → Answers → World
accept_one w p socket a =
    let (w', created) = create_user w p socket a in
    if socket == invalid_socket
    then w
    else if created
    then w'
    else record w' { closed = w'.closed ++ socket ∷ [] }

-- `IOOperation`.
pub data IoOperation : Type 0 where
  io_recv io_send io_error : IoOperation

-- What `GetQueuedCompletionStatus` gives: its result, the size, the session, the operation of the
-- overlapped structure if that is not null, and the bytes in the session's receive buffer.
pub record Completion : Type 0 where
  pub success : Bool
  pub io_size : ℕ
  pub session : ℕ
  pub overlapped : Option IoOperation
  pub buffer : List ℕ

-- The branch for received bytes: a package for the logic, and the next receive.
unfoldable pub received : ℕ → World → Completion → Bool → Result World
received junk w c recv_ok = do
  u ← deref w c.session
  packet ← on_recv junk c.buffer c.io_size
  let w' = push_job w (record { session = some c.session; packet = some packet })
  ok (bind_recv w' u.session recv_ok).0

unfoldable pub completed : ℕ → World → Completion → Bool → IoOperation → Result World
completed junk w c recv_ok io_recv = received junk w c recv_ok
completed junk w c recv_ok io_send = ok w
completed junk w c recv_ok io_error = ok w

-- The session is gone: the user is removed.
unfoldable pub dropped : World → Completion → Result World
dropped w c = do u ← deref w c.session; remove_user_id w u.session.user_id

-- The body of the loop in `WorkerThread`, and a round of it.
unfoldable pub handle : ℕ → World → Completion → Bool → Option IoOperation → Result World
handle junk w c recv_ok none =
    ok (if c.success && c.io_size == 0 then record w { worker_run = false } else w)
handle junk w c recv_ok (some op) =
    if not c.success || (c.io_size == 0 && c.success)
    then dropped w c
    else completed junk w c recv_ok op

unfoldable pub run_worker : ℕ → World → Completion → Bool → Result World
run_worker junk w c recv_ok = if w.worker_run then handle junk w c recv_ok c.overlapped else ok w
