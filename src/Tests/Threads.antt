-- ===== src/Tests/Threads.antt =====
-- The rounds of the threads, on the small server and on one that has just started.
use tcp_socket_chatting_serv.Base.{
  ℕ, ◌≡◌, refl, true, false, [], ◌∷◌, none, some, arith, ok, fault, dangling,
}
use tcp_socket_chatting_serv.Containers.{lookup}
use tcp_socket_chatting_serv.Packet.Types.{pk_c_room_exit}
use tcp_socket_chatting_serv.Server.World.{World, start}
use tcp_socket_chatting_serv.Server.Users.{Answers}
use tcp_socket_chatting_serv.Server.Threads.{
  run_process, accept_one, io_recv, Completion, run_worker,
}
use tcp_socket_chatting_serv.Server.Connect.{accepted, accept_one_lem, accept_one-IsSound}
use tcp_socket_chatting_serv.Server.Races.{removed_before_processed}
use tcp_socket_chatting_serv.Server.Invariant.{IsSound}
use tcp_socket_chatting_serv.Server.Invariant.Reach.{here, next, accepts, reachable-IsSound}
use tcp_socket_chatting_serv.Server.Shutdown.{destroy_users, destroy_users_lem}
use tcp_socket_chatting_serv.Tests.Small.{alice, small, small-IsSound}

abbrev both_ok : Answers
both_ok = record { port = 64; recv_ok = true }

accept_one_lem_example : accept_one small 300 9 both_ok ≡ accepted small 300 9 64 true
accept_one_lem_example = accept_one_lem small 300 9 both_ok (omega arith)

none_there : lookup small.user_id small.user_list ≡ none
unfolding lookup
none_there = refl

accept_one-IsSound_example : IsSound (accept_one small 300 9 both_ok)
accept_one-IsSound_example =
    accept_one-IsSound small 300 9 both_ok (omega arith) refl none_there small-IsSound

start_free : start.heap 100 ≡ none
unfolding start
start_free = refl

start_unused : lookup start.user_id start.user_list ≡ none
unfolding start lookup
start_unused = refl

reachable-IsSound_example : IsSound (accept_one start 100 7 both_ok)
reachable-IsSound_example =
    reachable-IsSound (accept_one start 100 7 both_ok)
      (next here (accepts 100 7 both_ok (omega arith) start_free start_unused))

-- The small server with a package of a user's at the head of the queue, and the completion that
-- tells of the user's failed connection.
abbrev waiting : World
waiting = record small {
  job_queue = record { session = some 100; packet = some pk_c_room_exit } ∷ [];
}

abbrev failed : Completion
failed = record {
  success = false;
  io_size = 0;
  session = 100;
  overlapped = some io_recv;
  buffer = [];
}

waiting-IsSound : IsSound waiting
waiting-IsSound = small-IsSound

removed_before_processed_example :
    (w' : World) × (run_worker 9 waiting failed true ≡ ok w') × (run_process w' ≡ fault dangling)
removed_before_processed_example =
    removed_before_processed 9 waiting failed true io_recv alice pk_c_room_exit [] waiting-IsSound
      refl refl refl refl refl refl tt

destroy_users_lem_example :
    (w' : World) × (destroy_users small ≡ ok w') × ((p : ℕ) → w'.heap p ≡ none)
destroy_users_lem_example = destroy_users_lem small small-IsSound ((omega arith, tt), (tt, tt))
