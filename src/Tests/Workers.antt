-- ===== src/Tests/Workers.antt =====
-- The workers of the two servers, one of which waits when `quit` is typed.
use tcp_socket_chatting_serv.Base.{
  ◌+◌, ◌*◌, ◌<◌, ◌≤◌, ◌≡◌, refl, ◌⊎◌, true, false, [], ◌∷◌, some, length, arith, fill,
}
use tcp_socket_chatting_serv.Workers.{
  Pool, posted, test, take_one, Run, here, next, move, test_flag, take_status, size, stop_workers,
  stop_workers_1_0,
}
use tcp_socket_chatting_serv.Workers.Start.{
  Answers, serving, start, start_1_0, initialize, init_socket, init_socket_1_0, bind_and_listen,
  start_server, create_threads, no_workers, run_main, max_worker_thread, max_worker_thread_1_0,
}
use tcp_socket_chatting_serv.Workers.Moves.{tests, takes, completions}
use tcp_socket_chatting_serv.Workers.Stop.{shutdown_ends, shutdown_1_0-waits}

abbrev all_ok : Answers
all_ok = record {
  wsa_ok = true;
  socket_ok = true;
  bind_ok = true;
  listen_ok = true;
  port_ok = true;
}

abbrev ten : Pool
ten = record { is_run = true; port = []; testing = 10; waiting = 0; ended = 0 }

abbrev fourteen : Pool
fourteen = record ten { testing = 14 }

start-ten : start all_ok ≡ serving ten
unfolding start initialize init_socket bind_and_listen start_server create_threads no_workers
    run_main
start-ten = refl

start-fourteen : start_1_0 all_ok ≡ serving fourteen
unfolding start_1_0 initialize init_socket_1_0 bind_and_listen start_server create_threads
    no_workers run_main
start-fourteen = refl

abbrev one_waits : Pool
one_waits = record ten { testing = 9; waiting = 1 }

one_waits-Run : Run (test ∷ []) ten one_waits
unfolding move test_flag
one_waits-Run = next refl here

-- It takes one of the ten posts, and ends.
abbrev one_ended : Pool
one_ended = record { is_run = false; port = fill 9 posted; testing = 9; waiting = 0; ended = 1 }

one_ended-Run : Run (take_one ∷ test ∷ []) (stop_workers true one_waits) one_ended
unfolding stop_workers size move test_flag take_status fill
one_ended-Run = next refl (next refl here)

shutdown_ends_example :
    (tests (take_one ∷ test ∷ []) + takes (take_one ∷ test ∷ []) ≤ 2 * max_worker_thread)
    × (((r : Pool) × ((move test one_ended ≡ some r) ⊎ (move take_one one_ended ≡ some r)))
        ⊎ (1 ≡ max_worker_thread))
shutdown_ends_example =
    shutdown_ends all_ok ten one_waits one_ended (test ∷ []) (take_one ∷ test ∷ []) start-ten
      one_waits-Run one_ended-Run

abbrev one_of_fourteen : Pool
one_of_fourteen = record fourteen { testing = 13; waiting = 1 }

one_of_fourteen-Run : Run (test ∷ []) fourteen one_of_fourteen
unfolding move test_flag
one_of_fourteen-Run = next refl here

abbrev hangs : Pool
hangs = record one_of_fourteen { is_run = false; testing = 12; ended = 1 }

hangs-Run : Run (test ∷ []) (stop_workers_1_0 one_of_fourteen) hangs
unfolding stop_workers_1_0 move test_flag
hangs-Run = next refl here

few : length one_of_fourteen.port + completions (test ∷ []) < 1
unfolding completions
few = omega arith

shutdown_1_0-waits_example : (0 < hangs.waiting) × (hangs.ended < max_worker_thread_1_0)
shutdown_1_0-waits_example =
    shutdown_1_0-waits all_ok fourteen one_of_fourteen hangs (test ∷ []) (test ∷ []) start-fourteen
      one_of_fourteen-Run hangs-Run few
