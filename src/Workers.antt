-- ===== src/Workers.antt =====
-- The worker threads around their completion port, as `WorkerThread` of ChatServer.cpp and the
-- thread functions of IOCPServer.cpp use them: ChattingServer_v1.1/ChattingServer, and
-- ChattingServer_v1.0/ChattingServer. A worker tests the flag, waits for a completion, or has ended.
pub mod Moves
pub mod Start
pub mod Stop
use tcp_socket_chatting_serv.Base.{
  ℕ, zero, suc, ◌+◌, Bool, true, false, List, [], ◌∷◌, ◌++◌, Option, none, some, fill,
  if◌then◌else◌, ◌≡◌,
}

-- What the port gives: the empty completion that `PostQueuedCompletionStatus` posts, or that of a
-- receive or of a send.
pub data Status : Type 0 where
  posted io_done : Status

-- The flag, the port, and the numbers of workers before the test of the loop, in the wait for the
-- port, and past the loop.
pub record Pool : Type 0 where
  pub is_run : Bool
  pub port : List Status
  pub testing : ℕ
  pub waiting : ℕ
  pub ended : ℕ

-- `workerThreads_.size()`.
unfoldable pub size : Pool → ℕ
size p = p.testing + p.waiting + p.ended

-- A worker tests the flag; a worker that waits takes a completion, handles it and comes back to the
-- test; a receive or a send completes.
pub data Move : Type 0 where
  test take_one complete : Move

unfoldable pub test_flag : Pool → ℕ → Option Pool
test_flag p zero = none
test_flag p (suc n) = some (
    if p.is_run
    then record p { testing = n; waiting = p.waiting + 1 }
    else record p { testing = n; ended = p.ended + 1 })

unfoldable pub take_status : Pool → ℕ → List Status → Option Pool
take_status p zero port = none
take_status p (suc n) [] = none
take_status p (suc n) (posted ∷ rest) =
    some (record p { is_run = false; port = rest; waiting = n; testing = p.testing + 1 })
take_status p (suc n) (io_done ∷ rest) =
    some (record p { port = rest; waiting = n; testing = p.testing + 1 })

unfoldable pub move : Move → Pool → Option Pool
move test p = test_flag p p.testing
move take_one p = take_status p p.waiting p.port
move complete p = some (record p { port = p.port ++ io_done ∷ [] })

-- Moves in a row.
pub data Run : List Move → Pool → Pool → Type 0 where
  here : {p : Pool} → Run [] p p
  next :
      {m : Move} {ms : List Move} {p p' p'' : Pool}
      → move m p ≡ some p'
      → Run ms p' p''
      → Run (m ∷ ms) p p''

-- `DestroyThreads` up to the first `join`: version 1.1 posts an empty completion for each worker where
-- the port exists, version 1.0 posts none.
unfoldable pub stop_workers : Bool → Pool → Pool
stop_workers has_port p =
    let off = record p { is_run = false } in
    if has_port then record off { port = p.port ++ fill (size p) posted } else off

unfoldable pub stop_workers_1_0 : Pool → Pool
stop_workers_1_0 p = record p { is_run = false }
