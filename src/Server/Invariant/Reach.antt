-- ===== src/Server/Invariant/Reach.antt =====
-- The server as a whole: the threads of ChatServer.cpp, LogicProcess.h and SendServer.h take turns, a
-- round each, while clients keep to the protocol.
use tcp_socket_chatting_serv.Base.{ℕ, ◌≡◌, ◌≢◌, Bool, List, ◌∷◌, none, some, ok}
use tcp_socket_chatting_serv.Containers.{lookup}
use tcp_socket_chatting_serv.Packet.Types.{Packet}
use tcp_socket_chatting_serv.Server.World.{World, User, RecvPackage, start, invalid_socket}
use tcp_socket_chatting_serv.Server.Users.{Answers}
use tcp_socket_chatting_serv.Server.Threads.{
  run_process, run_send, accept_one, Completion, run_worker,
}
use tcp_socket_chatting_serv.Server.Invariant.Rounds.{process-step, send-step, worker-step}
use tcp_socket_chatting_serv.Server.Connect.{accept_one-IsSound}
use tcp_socket_chatting_serv.Server.Invariant.{IsSound}
use tcp_socket_chatting_serv.Server.Invariant.Protocol.{Conforms}

-- One round of a thread that returns: the accepter, with a free address and a free number; the logic,
-- on a package whose user is there and keeps to the protocol, or with nothing to do; the sender; a
-- worker.
pub data Step : World → World → Type 0 where
  accepts :
      {w : World} (p socket : ℕ) (a : Answers)
      → socket ≢ invalid_socket
      → w.heap p ≡ none
      → lookup w.user_id w.user_list ≡ none
      → Step w (accept_one w p socket a)
  processes :
      {w w' : World} (s : ℕ) (u : User) (packet : Packet) (rest : List RecvPackage)
      → w.job_queue ≡ record { session = some s; packet = some packet } ∷ rest
      → w.heap s ≡ some u
      → Conforms w u packet
      → run_process w ≡ ok w'
      → Step w w'
  sends : {w w' : World} → run_send w ≡ ok w' → Step w w'
  completes :
      {w w' : World} (junk : ℕ) (c : Completion) (recv_ok : Bool)
      → run_worker junk w c recv_ok ≡ ok w'
      → Step w w'

-- A world that rounds lead to.
pub data Reach (w : World) : World → Type 0 where
  here : Reach w w
  next : {w₁ w₂ : World} → Reach w w₁ → Step w₁ w₂ → Reach w w₂

pub Step-IsSound : {w w' : World} → Step w w' → IsSound w → IsSound w'
Step-IsSound {w} (accepts p socket a valid free unused) sound =
    accept_one-IsSound w p socket a valid free unused sound
Step-IsSound {w} {w'} (processes s u packet rest queue there c e) sound =
    process-step w w' s u packet rest queue there c sound e
Step-IsSound {w} {w'} (sends e) sound = send-step w w' sound e
Step-IsSound {w} {w'} (completes junk c recv_ok e) sound = worker-step junk w w' c recv_ok sound e

Reach-IsSound : {w w' : World} → Reach w w' → IsSound w → IsSound w'
Reach-IsSound here sound = sound
Reach-IsSound (next r st) sound = Step-IsSound st (Reach-IsSound r sound)

pub start-IsSound : IsSound start
unfolding start
start-IsSound = record {
  registered = tt;
  listed = λ p u e. cc;
  members = tt;
  located = λ p u rid e o. cc;
}

-- The invariant holds in every world that rounds of the threads lead to from the start, in any
-- order, where each new connection has a valid socket, a free address and a free number, each
-- package that the logic takes is of a user who is there and conforms to the protocol, and each
-- round returns.
pub reachable-IsSound : (w : World) → Reach start w → IsSound w
reachable-IsSound w r = Reach-IsSound r start-IsSound
