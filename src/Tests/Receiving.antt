-- ===== src/Tests/Receiving.antt =====
-- A packet received and handled by the small server.
use tcp_socket_chatting_serv.Base.{◌≡◌, refl, true, [], ◌∷◌, some, length, fill, arith, ◌>>=◌}
use tcp_socket_chatting_serv.Bytes.{le_bytes}
use tcp_socket_chatting_serv.Packet.Types.{Packet, type, code, counted, pk_c_multicast}
use tcp_socket_chatting_serv.Packet.Encoded.{wire, payload}
use tcp_socket_chatting_serv.Server.Logic.{process}
use tcp_socket_chatting_serv.Server.Threads.{run_process, Completion, io_recv, run_worker}
use tcp_socket_chatting_serv.Server.Reception.{Receives, run_process-Receives}
use tcp_socket_chatting_serv.Tests.Small.{alice, small}

abbrev said : Packet
said = pk_c_multicast (72 ∷ [])

length-said : length (wire said) ≡ 6
unfolding wire payload type code le_bytes
length-said = refl

abbrev arrived : Completion
arrived = record {
  success = true;
  io_size = 10;
  session = 100;
  overlapped = some io_recv;
  buffer = 113 ∷ 0 ∷ 0 ∷ 0 ∷ 72 ∷ 0 ∷ 0 ∷ 0 ∷ 0 ∷ 0 ∷ 9 ∷ [];
}

arrived-Receives : Receives arrived said
unfolding wire payload type code le_bytes fill
arrived-Receives = record { done = refl; kind = refl; tail = 9 ∷ []; bytes = refl; size = refl }

run_process-Receives_example :
    (run_worker 9 small arrived true >>= run_process) ≡ process small 100 (counted said)
run_process-Receives_example =
    run_process-Receives 9 small arrived alice said refl refl arrived-Receives
      ((omega arith, omega arith), tt) (omega (arith, length-said)) refl refl
