-- ===== src/Tests/Legacy.antt =====
-- A pool for eight clients of the first version.
use tcp_socket_chatting_serv.Base.{
  ℕ, ◌+◌, ◌-◌, ◌%◌, ◌^◌, ◌≢◌, List, none, ◌<◌, ◌≡◌, refl, ◌⊎◌, true, false, [], ◌∷◌, ◌++◌, some,
  length, fill, arith, ok, fault, out_of_range,
}
use tcp_socket_chatting_serv.Legacy.User.{UserInfo, lobby_no, is_connected, has_socket}
use tcp_socket_chatting_serv.Legacy.Manager.{Sent, ClientManager, new_manager, create_client}
use tcp_socket_chatting_serv.Legacy.Manager.Create.{Serves}
use tcp_socket_chatting_serv.Legacy.Manager.Reach.{begins}
use tcp_socket_chatting_serv.Legacy.Manager.Admission.{reachable-Serves}
use tcp_socket_chatting_serv.Legacy.Manager.Lost.{accept_clients, lost_client}
use tcp_socket_chatting_serv.Legacy.Packets.{PacketInfo, uninitialized}
use tcp_socket_chatting_serv.Legacy.Process.{Server, process_server_exit, run_packet}
use tcp_socket_chatting_serv.Legacy.Exits.{after_sends, server_exit_closes}
use tcp_socket_chatting_serv.Legacy.Completed.{complete_sends}
use tcp_socket_chatting_serv.Legacy.Slots.{range, set_at}

reachable-Serves_example :
    (((new_manager 8).client_count ≡ (new_manager 8).max_client_count)
      × (create_client 7 true true (new_manager 8) ≡ ok (new_manager 8, false)))
    ⊎ ((m' : ClientManager) × (create_client 7 true true (new_manager 8) ≡ ok (m', true))
        × Serves (new_manager 8).client_infos m'.client_infos 7
        × (m'.client_count ≡ (new_manager 8).client_count + 1))
reachable-Serves_example = reachable-Serves 8 7 (new_manager 8) (omega arith) (omega arith) begins

two_free : 1 + 1 ≡ length (new_manager 8).empty_clients
unfolding new_manager range
two_free = refl

lost_client_example :
    (m₁ : ClientManager) × (m₂ : ClientManager) × (create_client 5 true false (new_manager 8)
      ≡ ok (m₁, false))
    × (accept_clients (7 ∷ []) m₁ ≡ ok m₂)
    × (m₂.client_count < m₂.max_client_count)
    × (create_client 9 true true m₂ ≡ fault out_of_range)
lost_client_example =
    lost_client 8 0 5 9 (7 ∷ []) (new_manager 8) (omega arith) (omega arith) begins two_free

-- Two clients in a room, of whom the second leaves the server.
abbrev pub member : ℕ → UserInfo
member socket = record {
  socket = some socket;
  room = 3;
  prev_room = 0;
  id = some socket;
  nickname = fill 32 0;
}

abbrev pub pair : Server
pair = record {
  manager = record {
    client_infos = member 7 ∷ member 8 ∷ [];
    empty_clients = [];
    max_client_count = 8;
    current_capacity = 2;
    client_count = 2;
    next_id = 9;
    sent = [];
  };
  packet_queue = [];
  is_worker_run = true;
}

abbrev exit_request : PacketInfo
exit_request = record {
  client_index = 1;
  data_size = 6;
  send_type = uninitialized;
  is_close = false;
  packet_data = 2 ∷ 0 ∷ 12 ∷ 0 ∷ 66 ∷ 0 ∷ [];
}

member-connected : is_connected (member 8) ≡ true
unfolding is_connected has_socket
member-connected = refl

server_exit_closes_example :
    (new : List Sent) × (run_packet (λ _. true) (process_server_exit exit_request pair)
      ≡ ok (after_sends pair new))
    × (((3 ≡ lobby_no) × (complete_sends new (after_sends pair new) ≡ ok (after_sends pair new)))
        ⊎ ((3 ≢ lobby_no)
            × (complete_sends new (after_sends pair new)
                ≡ ok (record (after_sends pair new) {
                  manager = record pair.manager {
                    sent = [] ++ new;
                    client_infos =
                        set_at 1 (record (member 8) { socket = none }) (member 7 ∷ member 8 ∷ []);
                    empty_clients = [] ++ 1 ∷ [];
                    client_count = (2 + (2 ^ 32 - 1)) % 2 ^ 32;
                  };
                }))))
server_exit_closes_example =
    server_exit_closes pair exit_request (member 8) refl refl refl member-connected (omega arith)
      (omega arith) refl
