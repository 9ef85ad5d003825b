-- ===== src/Legacy/Completed.antt =====
-- What the worker threads of ChattingServer_v1.0/ChattingServer/ChatServer.cpp do once sends are done.
use tcp_socket_chatting_serv.Base.{
  ℕ, ◌⊎◌, Result, fault, ◌≤◌, ◌≡◌, refl, sym, ap, ◌∙◌, inl, inr, Bool, true, false, List, [], ◌∷◌,
  some, All, length, ◌==◌, if◌then◌else◌, arith, ok, ◌>>=◌,
}
use tcp_socket_chatting_serv.Legacy.User.{IoOperation, io_send, io_close}
use tcp_socket_chatting_serv.Legacy.Manager.{Sent, ClientManager, close_client}
use tcp_socket_chatting_serv.Legacy.Process.{Server}
use tcp_socket_chatting_serv.Legacy.Threads.{Completion, worker_round, handle, completed, on_close}

-- The clients whose connection is closed once the send is done.
unfoldable pub closes : IoOperation → Bool
closes io_close = true
closes operation = false

unfoldable pub closing : List Sent → List ℕ
unfolding closes
closing [] = []
closing (s ∷ sent) =
    let rest = closing sent in if closes s.operation then s.receiver ∷ rest else rest

-- The completion of a send whose bytes were all taken, and a round of a worker for each of some sends.
abbrev pub sent_completion : Sent → Completion
sent_completion x = record {
  success = true;
  io_size = length x.bytes;
  index = x.receiver;
  overlapped = some x.operation;
  buffer = [];
}

unfoldable pub complete_sends : List Sent → Server → Result Server
complete_sends [] s = ok s
complete_sends (x ∷ sent) s = worker_round (sent_completion x) true s >>= complete_sends sent

-- The connections of some clients are closed.
unfoldable pub close_all : List ℕ → Server → Result Server
close_all [] s = ok s
close_all (i ∷ is) s = on_close i s >>= close_all is

after-close :
    (r : Result ClientManager) (s : Server) (f g : Server → Result Server)
    → ((m : ClientManager) → f (record s { manager = m }) ≡ g (record s { manager = m }))
    → (r >>= (λ m. ok (record s { manager = m })) >>= f)
      ≡ (r >>= (λ m. ok (record s { manager = m })) >>= g)
after-close (ok m) s f g same = same m
after-close (fault x) s f g same = refl

-- A send that has bytes, and does not close or does.
abbrev pub IsSend : Sent → Type 0
IsSend x = (1 ≤ length x.bytes) × ((x.operation ≡ io_send) ⊎ (x.operation ≡ io_close))

plain_round :
    (x : Sent) (s : Server)
    → s.is_worker_run ≡ true
    → 1 ≤ length x.bytes
    → x.operation ≡ io_send
    → worker_round (sent_completion x) true s ≡ ok s
unfolding worker_round handle completed
plain_round x s run one plain =
    let some_ : (length x.bytes == 0) ≡ false = ground arith in rw (run, some_, plain) refl

close_round :
    (x : Sent) (s : Server)
    → s.is_worker_run ≡ true
    → 1 ≤ length x.bytes
    → x.operation ≡ io_close
    → worker_round (sent_completion x) true s ≡ on_close x.receiver s
unfolding worker_round handle completed
close_round x s run one last =
    let some_ : (length x.bytes == 0) ≡ false = ground arith in rw (run, some_, last) refl

-- The workers close the connections that the sends are for.
pub complete_sends-closing :
    (sent : List Sent) (s : Server)
    → s.is_worker_run ≡ true
    → All IsSend sent
    → complete_sends sent s ≡ close_all (closing sent) s
unfolding complete_sends close_all closing closes on_close
complete_sends-closing [] s run full = refl
complete_sends-closing (x ∷ sent) s run ((one, operation), full) = elim operation [
  | inl plain ↦
      ap (λ r. r >>= complete_sends sent) (plain_round x s run one plain)
      ∙ complete_sends-closing sent s run full
      ∙ ap (λ o. close_all (if closes o then x.receiver ∷ closing sent else closing sent) s)
          (sym plain)
  | inr last ↦
      ap (λ r. r >>= complete_sends sent) (close_round x s run one last)
      ∙ after-close (close_client x.receiver s.manager) s (complete_sends sent)
          (close_all (closing sent))
          (λ m. complete_sends-closing sent (record s { manager = m }) run full)
      ∙ ap (λ o. close_all (if closes o then x.receiver ∷ closing sent else closing sent) s)
          (sym last)
]
