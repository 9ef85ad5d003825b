-- ===== src/Server/Reception.antt =====
-- From a completed receive to the handler: the worker of ChattingServer_v1.1/ChattingServer/ChatServer.cpp
-- and the loop of the logic in LogicProcess.h.
use tcp_socket_chatting_serv.Base.{
  ℕ, ◌+◌, ◌≤◌, ◌≡◌, sym, ap, ◌∙◌, Bool, true, false, List, [], ◌∷◌, ◌++◌, length-append, some, ◌==◌,
  length, fill, if◌then◌else◌, arith, ok, ◌>>=◌,
}
use tcp_socket_chatting_serv.Stream.{sock_buf_size}
use tcp_socket_chatting_serv.Packet.Types.{Packet, counted}
use tcp_socket_chatting_serv.Packet.Encoded.{wire}
use tcp_socket_chatting_serv.Packet.Sendable.{IsSendable}
use tcp_socket_chatting_serv.IoData.{on_recv}
use tcp_socket_chatting_serv.IoData.RoundTrip.{send_packet_lem, on_recv-send_packet}
use tcp_socket_chatting_serv.Server.World.{User, World, RecvPackage}
use tcp_socket_chatting_serv.Server.Users.{bind_recv}
use tcp_socket_chatting_serv.Server.Logic.{process}
use tcp_socket_chatting_serv.Server.Threads.{
  push_job, process_package, process_job, run_process, Completion, io_recv, received, completed,
  handle, run_worker,
}
use tcp_socket_chatting_serv.Server.Cast.{deref-eq_ok}

-- The completion of a receive, for a session, of a packet that the peer sent.
pub record Receives (c : Completion) (p : Packet) : Type 0 where
  pub done : c.success ≡ true
  pub kind : c.overlapped ≡ some io_recv
  pub tail : List ℕ
  pub bytes : c.buffer ≡ (wire p ++ fill 4 0) ++ tail
  pub size : c.io_size ≡ length (wire p ++ fill 4 0)

module _ (junk : ℕ) (w : World) (c : Completion) (u : User) (q : Packet)
    (there : w.heap c.session ≡ some u) (working : w.worker_run ≡ true) (done : c.success ≡ true)
    (kind : c.overlapped ≡ some io_recv) (full : (c.io_size == 0) ≡ false)
    (got : on_recv junk c.buffer c.io_size ≡ ok q) where
  -- A round of a worker with a completed receive of which the session makes a packet.
  pub run_worker-received :
      run_worker junk w c true
      ≡ ok (push_job w (record { session = some c.session; packet = some q }))
  unfolding run_worker handle completed received bind_recv
  run_worker-received =
      ap (λ (b : Bool). if b then handle junk w c true c.overlapped else ok w) working
      ∙ ap (handle junk w c true) kind
      ∙ rw (done, full, deref-eq_ok w c.session u there, got)

  -- The same, and a round of the logic where no job waits.
  pub run_process-received :
      w.process_run ≡ true
      → w.job_queue ≡ []
      → (run_worker junk w c true >>= run_process) ≡ process w c.session q
  unfolding run_process process_job process_package push_job
  run_process-received running idle =
      ap (λ r. r >>= run_process) run_worker-received
      ∙ ap (λ (b : Bool). if b then process_job pushed pushed.job_queue else ok pushed) running
      ∙ ap (λ l. process_job pushed (l ++ pkg ∷ [])) idle
      ∙ ap (λ l. process (record w { job_queue = l }) c.session q) (sym idle)
    where
      pkg : RecvPackage
      pkg = record { session = some c.session; packet = some q }

      pushed : World
      pushed = push_job w pkg

module _ (junk : ℕ) (w : World) (c : Completion) (u : User) (p : Packet)
    (there : w.heap c.session ≡ some u) (working : w.worker_run ≡ true) (receives : Receives c p)
    (good : IsSendable p) (room : length (wire p) + 4 ≤ sock_buf_size) where
  on_recv-Receives : on_recv junk c.buffer c.io_size ≡ ok (counted p)
  on_recv-Receives =
      ap (λ b. on_recv junk b c.io_size) receives.bytes
      ∙ ap (on_recv junk ((wire p ++ fill 4 0) ++ receives.tail)) receives.size
      ∙ sym (
          ap (λ r. r >>= λ bs. on_recv junk (bs ++ receives.tail) (length bs))
            (send_packet_lem p room))
      ∙ on_recv-send_packet junk p receives.tail good room

  not_empty : (c.io_size == 0) ≡ false
  unfolding fill
  not_empty = ground (arith, receives.size, length-append (wire p) (fill 4 0))

  -- Where a worker gets the completion of a receive of a packet that the peer sent, for the
  -- session of a user who is there, while the threads run and no job waits, and the next receive
  -- starts: the round of the worker and then one of the logic do what the handler does with that
  -- packet. (The packet's fields survive the wire, and it leaves four bytes of the stream free.)
  pub run_process-Receives :
      w.process_run ≡ true
      → w.job_queue ≡ []
      → (run_worker junk w c true >>= run_process) ≡ process w c.session (counted p)
  run_process-Receives =
      run_process-received junk w c u (counted p) there working receives.done receives.kind
        not_empty on_recv-Receives
