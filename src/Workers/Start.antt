-- ===== src/Workers/Start.antt =====
-- From `main` to the running workers: main.cpp, ChatServer.h and IOCPServer.cpp of
-- ChattingServer_v1.1/ChattingServer and of ChattingServer_v1.0/ChattingServer.
use tcp_socket_chatting_serv.Base.{
  ℕ, ◌+◌, Bool, true, false, ◌&&◌, List, [], ◌∷◌, Option, none, some, if◌then◌else◌, str_eq,
}
use tcp_socket_chatting_serv.Workers.{Pool}

-- Whether the calls of Winsock succeed: `WSAStartup`, `WSASocket`, `bind`, `listen`, and
-- `CreateIoCompletionPort`.
pub record Answers : Type 0 where
  pub wsa_ok : Bool
  pub socket_ok : Bool
  pub bind_ok : Bool
  pub listen_ok : Bool
  pub port_ok : Bool

-- What a function gives that may end the program: its result, or the code of `exit`.
pub data Outcome : Type 0 where
  returns : Bool → Outcome
  exits : ℕ → Outcome

-- `InitSocket`: in version 1.1 a failed `WSAStartup` ends the program.
unfoldable pub init_socket : Answers → Outcome
init_socket a = if a.wsa_ok then returns a.socket_ok else exits 0

unfoldable pub init_socket_1_0 : Answers → Outcome
init_socket_1_0 a = if a.wsa_ok then returns a.socket_ok else returns false

-- `BindAndListen`.
unfoldable pub bind_and_listen : Answers → Bool
bind_and_listen a = a.bind_ok && a.listen_ok

-- `Initialize`, by what `InitSocket` gave.
unfoldable pub initialize : Answers → Outcome → Outcome
initialize a (exits code) = exits code
initialize a (returns false) = returns false
initialize a (returns true) = returns (bind_and_listen a)

-- The pool of the constructor, and `CreateThreads` for as many workers.
unfoldable pub no_workers : Pool
no_workers = record { is_run = true; port = []; testing = 0; waiting = 0; ended = 0 }

unfoldable pub create_threads : ℕ → Pool → Pool
create_threads count p = record p { testing = p.testing + count }

-- `kMaxWorkerThread`, and `MAX_WORKERTHREAD` of version 1.0.
abbrev pub max_worker_thread : ℕ
max_worker_thread = 10

abbrev pub max_worker_thread_1_0 : ℕ
max_worker_thread_1_0 = 14

-- `StartServer`, which `RunServer` and `Run` end with.
unfoldable pub start_server : Answers → ℕ → Option Pool
start_server a count = if a.port_ok then some (create_threads count no_workers) else none

-- How `main` goes on up to its wait for `quit`: it exits with a code, or the workers run.
pub data Started : Type 0 where
  exited : ℕ → Started
  serving : Pool → Started

unfoldable pub run_main : Outcome → Option Pool → Started
run_main (exits code) pool = exited code
run_main (returns false) pool = exited 1
run_main (returns true) none = exited 1
run_main (returns true) (some pool) = serving pool

unfoldable pub start : Answers → Started
start a = run_main (initialize a (init_socket a)) (start_server a max_worker_thread)

unfoldable pub start_1_0 : Answers → Started
start_1_0 a = run_main (initialize a (init_socket_1_0 a)) (start_server a max_worker_thread_1_0)

-- The loop of `main` over the lines that are typed, up to `quit`: those behind it, if it comes.
unfoldable pub await_quit : List (List ℕ) → Option (List (List ℕ))
await_quit [] = none
await_quit (line ∷ lines) =
    let rest = await_quit lines in
    if str_eq line (b'q' ∷ b'u' ∷ b'i' ∷ b't' ∷ []) then some lines else rest
