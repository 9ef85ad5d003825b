-- ===== src/Server/Races.antt =====
-- A user removed by one thread while another still holds packages of the user's session.
use tcp_socket_chatting_serv.Server.Invariant.Exits.{remove_user-lobby, remove_user-room}
use tcp_socket_chatting_serv.Server.World.{RecvPackage}
use tcp_socket_chatting_serv.Server.Users.{remove_found, remove_user_id}
use tcp_socket_chatting_serv.Server.Threads.{
  process_package, process_job, run_process, Completion, IoOperation, dropped, handle, run_worker,
}
use tcp_socket_chatting_serv.Base.{
  ℕ, ◌≡◌, refl, ap, ◌∙◌, Bool, true, false, inl, inr, List, ◌∷◌, none, some, if◌then◌else◌,
  Option-cases, ok, fault, dangling,
}
use tcp_socket_chatting_serv.Packet.Types.{
  Packet, pk_c_server_enter, pk_c_server_exit, pk_c_room_enter, pk_c_room_exit, pk_c_broadcast,
  pk_c_multicast, pk_c_unicast, pk_c_room_create,
}
use tcp_socket_chatting_serv.Server.World.{close, delete_user, User, World, update, deref, put_user}
use tcp_socket_chatting_serv.Server.Rooms.{remove_from_lobby, put_users}
use tcp_socket_chatting_serv.Server.Users.{get_user, remove_user}
use tcp_socket_chatting_serv.Server.Logic.{
  user_of, process, on_server_enter, on_server_exit, on_room_create, on_room_enter, on_room_exit,
  on_unicast, on_multicast, on_broadcast,
}
use tcp_socket_chatting_serv.Server.Cast.{queued, deref-eq_ok}
use tcp_socket_chatting_serv.Server.Invariant.{IsSound, update_at}

-- The packets whose handlers look at the session: all of a client's but the request for the rooms.
abbrev pub UsesSession : Packet → Type 0
UsesSession (pk_c_server_enter nickname) = Unit {0}
UsesSession pk_c_server_exit = Unit {0}
UsesSession (pk_c_room_enter rid) = Unit {0}
UsesSession pk_c_room_exit = Unit {0}
UsesSession (pk_c_broadcast text) = Unit {0}
UsesSession (pk_c_multicast text) = Unit {0}
UsesSession (pk_c_unicast recver text) = Unit {0}
UsesSession (pk_c_room_create name) = Unit {0}
UsesSession packet = ⊥

process-gone :
    (w : World) (s : ℕ) (packet : Packet)
    → w.heap s ≡ none
    → UsesSession packet
    → process w s packet ≡ fault dangling
unfolding process on_server_enter on_server_exit on_room_create on_room_enter on_room_exit
    on_unicast on_multicast on_broadcast user_of deref
process-gone w s (pk_c_server_enter nickname) gone uses = rw gone
process-gone w s pk_c_server_exit gone uses = rw gone
process-gone w s (pk_c_room_enter rid) gone uses = rw gone
process-gone w s pk_c_room_exit gone uses = rw gone
process-gone w s (pk_c_broadcast text) gone uses = rw gone
process-gone w s (pk_c_multicast text) gone uses = rw gone
process-gone w s (pk_c_unicast recver text) gone uses = rw gone
process-gone w s (pk_c_room_create name) gone uses = rw gone
process-gone w s packet gone uses = absurd uses

-- What the removal of a user leaves of the rest.
remove_user-rest :
    (w : World) (s : ℕ) (u : User)
    → w.heap s ≡ some u
    → IsSound w
    → (w' : World) × (remove_user w s ≡ ok w')
      × (w'.heap s ≡ none)
      × (w'.job_queue ≡ w.job_queue)
      × (w'.process_run ≡ w.process_run)
unfolding delete_user close remove_from_lobby put_users put_user queued
remove_user-rest w s u there sound = elim (Option-cases u.curr_room) [
  | inl lobby ↦ (_, remove_user-lobby w s u there sound lobby, update_at w.heap s none, refl, refl)
  | inr (rid, inside) ↦
      let (room, found, _) = sound.located s u rid there inside in
      (
        _,
        remove_user-room w s u there sound rid room inside found,
        update_at (update w.heap s (some (record u { curr_room = none }))) s none,
        refl,
        refl,
      )
]

process-branch :
    (w : World) (queue : List RecvPackage)
    → w.process_run ≡ true
    → w.job_queue ≡ queue
    → run_process w ≡ process_job w queue
unfolding run_process
process-branch w queue running q =
    ap (λ (b : Bool). if b then process_job w w.job_queue else ok w) running ∙ ap (process_job w) q

run_process-gone :
    (w : World) (s : ℕ) (packet : Packet) (rest : List RecvPackage)
    → w.process_run ≡ true
    → w.job_queue ≡ record { session = some s; packet = some packet } ∷ rest
    → w.heap s ≡ none
    → UsesSession packet
    → run_process w ≡ fault dangling
unfolding process_job process_package
run_process-gone w s packet rest running queue gone uses =
    process-branch w _ running queue
    ∙ process-gone (record w { job_queue = rest }) s packet gone uses

drop-branch :
    (junk : ℕ) (w : World) (c : Completion) (recv_ok : Bool) (op : IoOperation) (u : User)
    → w.worker_run ≡ true
    → c.overlapped ≡ some op
    → c.success ≡ false
    → w.heap c.session ≡ some u
    → IsSound w
    → run_worker junk w c recv_ok ≡ remove_user w c.session
unfolding run_worker handle dropped remove_user_id remove_found get_user
drop-branch junk w c recv_ok op u running over failed there sound =
    let (listed, same) = sound.listed c.session u there in
    ap (λ (b : Bool). if b then handle junk w c recv_ok c.overlapped else ok w) running
    ∙ ap (handle junk w c recv_ok) over
    ∙ rw (failed, deref-eq_ok w c.session u there, same, listed)

-- While the invariant holds and the threads run, where the connection of a user who is there fails
-- and a package of the user heads the queue, with a packet whose handler looks at the session: the
-- worker removes the user, and the next round of the logic goes through the deleted session.
pub removed_before_processed :
    (junk : ℕ) (w : World) (c : Completion) (recv_ok : Bool) (op : IoOperation) (u : User)
    (packet : Packet) (rest : List RecvPackage)
    → IsSound w
    → w.heap c.session ≡ some u
    → w.worker_run ≡ true
    → w.process_run ≡ true
    → c.overlapped ≡ some op
    → c.success ≡ false
    → w.job_queue ≡ record { session = some c.session; packet = some packet } ∷ rest
    → UsesSession packet
    → (w' : World) × (run_worker junk w c recv_ok ≡ ok w') × (run_process w' ≡ fault dangling)
removed_before_processed junk w c recv_ok op u packet rest sound there working running over failed
      queue uses =
    let (w', e, gone, jobs, run) = remove_user-rest w c.session u there sound in
    (
      w',
      drop-branch junk w c recv_ok op u working over failed there sound ∙ e,
      run_process-gone w' c.session packet rest (run ∙ running) (jobs ∙ queue) gone uses,
    )
