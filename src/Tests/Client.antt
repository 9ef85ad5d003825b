-- ===== src/Tests/Client.antt =====
-- The client and the small server.
use tcp_socket_chatting_serv.Base.{
  ◌≡◌, refl, true, [], ◌∷◌, some, length, arith, ok, fault, dangling, wrong_type, ◌>>=◌, str_eq,
}
use tcp_socket_chatting_serv.Bytes.{le_bytes}
use tcp_socket_chatting_serv.Packet.Types.{
  type, code, counted, pk_c_unicast, pk_s_room_exit, pk_s_multicast,
}
use tcp_socket_chatting_serv.Packet.Encoded.{wire, payload}
use tcp_socket_chatting_serv.IoData.{send_packet}
use tcp_socket_chatting_serv.Server.World.{deref}
use tcp_socket_chatting_serv.Server.Users.{find_by_nickname, find_in}
use tcp_socket_chatting_serv.Client.Lobby.{new_lobby}
use tcp_socket_chatting_serv.Client.Room.{new_room, update_player}
use tcp_socket_chatting_serv.Client.State.{
  lobby, chatroom, lobby_display, room_display, Client, recv_process, f_room_enter, into_room, show,
  is_lobby, as_room,
}
use tcp_socket_chatting_serv.Client.Threads.{client_bytes, recv_round, logic_round, lobby_key}
use tcp_socket_chatting_serv.Client.Displays.{fits_lobby, fits_room, Keeps, recv_process-Keeps}
use tcp_socket_chatting_serv.Client.Exchange.{recv_round-send_packet}
use tcp_socket_chatting_serv.Client.Hazards.{press_enter-dangling}
use tcp_socket_chatting_serv.Conversation.{relay, sent_to}
use tcp_socket_chatting_serv.Conversation.Whisper.{whispered, whisper-wrong_type}
use tcp_socket_chatting_serv.Tests.Small.{alice, bob, small, small-IsSound}

-- A client in the lobby, and one in a room.
abbrev waiting : Client
waiting = record {
  nickname = 66 ∷ [];
  user_id = 2;
  state = lobby;
  display = lobby_display (new_lobby 2);
  display_no = 2;
  send_queue = [];
  recv_queue = [];
  is_worker_run = true;
}

abbrev chatting : Client
chatting = record waiting {
  state = chatroom;
  display = room_display (new_room 2 (66 ∷ []));
  display_no = 3;
}

recv_process-Keeps_example : Keeps (recv_process chatting (pk_s_multicast (65 ∷ []) (72 ∷ [])))
recv_process-Keeps_example =
    recv_process-Keeps chatting (pk_s_multicast (65 ∷ []) (72 ∷ []))
      (fits_room (new_room 2 (66 ∷ []))) refl

length-left : length (wire (pk_s_room_exit 1)) ≡ 8
unfolding wire payload type code le_bytes
length-left = refl

recv_round-send_packet_example :
    (send_packet (pk_s_room_exit 1) >>= recv_round 9 chatting >>= logic_round)
    ≡ recv_process chatting (counted (pk_s_room_exit 1))
recv_round-send_packet_example =
    recv_round-send_packet 9 chatting (pk_s_room_exit 1) (omega arith) (omega (arith, length-left))
      refl refl

bob_found : find_by_nickname small (66 ∷ []) ≡ ok (some 200)
unfolding find_by_nickname find_in deref str_eq
bob_found = refl

whisper-wrong_type_example :
    (relay 9 small 100 (client_bytes (pk_c_unicast (66 ∷ []) (72 ∷ []))) [] 2
      ≡ ok (sent_to small (7 ∷ 8 ∷ []) (whispered alice (72 ∷ []))))
    × ((recv_round 9 waiting (whispered alice (72 ∷ [])) >>= logic_round) ≡ fault wrong_type)
whisper-wrong_type_example =
    whisper-wrong_type 9 small 100 200 alice bob (66 ∷ []) (72 ∷ []) refl refl small-IsSound
      (record {
        working = refl;
        processing = refl;
        sending = refl;
        no_job = refl;
        no_package = refl;
      })
      bob_found ((omega arith, omega arith), tt) ((omega arith, omega arith), tt) (omega arith)
      (omega arith) waiting [] ((omega arith, omega arith), tt) refl (fits_lobby (new_lobby 2)) refl
      refl

abbrev arrived : Client
arrived = record waiting {
  state = chatroom;
  display = room_display (update_player (new_room 2 (66 ∷ [])) 2 (66 ∷ []));
  display_no = 3;
}

waiting_enters : f_room_enter waiting 2 (66 ∷ []) ≡ ok arrived
unfolding f_room_enter into_room show is_lobby as_room
waiting_enters = refl

press_enter-dangling_example :
    (arrived.state ≡ chatroom) × (lobby_key arrived 2 13 0 ≡ fault dangling)
press_enter-dangling_example = press_enter-dangling waiting arrived (66 ∷ []) refl waiting_enters
