-- ===== src/Tests/Talk.antt =====
-- A line said in a room of the small server.
use tcp_socket_chatting_serv.Base.{
  length, ℕ, ◌≡◌, refl, true, List, [], ◌∷◌, some, arith, ok, ◌>>=◌, str_eq,
}
use tcp_socket_chatting_serv.Packet.Types.{pk_c_multicast, pk_c_broadcast}
use tcp_socket_chatting_serv.Client.Commands.{send_chat, starts_with}
use tcp_socket_chatting_serv.Client.Room.{RoomDisplay, new_room, cast, print}
use tcp_socket_chatting_serv.Client.State.{chatroom, room_display, Client}
use tcp_socket_chatting_serv.Client.Threads.{recv_round, logic_round}
use tcp_socket_chatting_serv.Conversation.Shout.{everyone, shouted, shouting}
use tcp_socket_chatting_serv.Conversation.{
  say_and_send, relay, sockets, sent_to, told, conversation,
}
use tcp_socket_chatting_serv.Tests.Small.{alice, den, small, small-IsSound}
use tcp_socket_chatting_serv.Tests.Handling.{den_found}

-- The client of the first user, in the room.
abbrev screen : RoomDisplay
screen = new_room 1 (65 ∷ [])

abbrev client : Client
client = record {
  nickname = 65 ∷ [];
  user_id = 1;
  state = chatroom;
  display = room_display screen;
  display_no = 3;
  send_queue = [];
  recv_queue = [];
  is_worker_run = true;
}

hi_plain : send_chat (72 ∷ 105 ∷ []) ≡ pk_c_multicast (72 ∷ 105 ∷ [])
unfolding send_chat starts_with str_eq
hi_plain = refl

conversation_example :
    (bytes : List ℕ) × (say_and_send client 3 (72 ∷ 105 ∷ []) ≡ ok (some bytes))
    × (relay 9 small 100 bytes [] 1
        ≡ ok (sent_to small (sockets small.heap (100 ∷ [])) (told alice (72 ∷ 105 ∷ []))))
    × ((recv_round 9 client (told alice (72 ∷ 105 ∷ [])) >>= logic_round)
        ≡ ok (record client {
          display = room_display (print screen (cast 15 (65 ∷ []) (72 ∷ 105 ∷ [])));
        }))
conversation_example =
    conversation 9 small 100 alice (72 ∷ 105 ∷ []) 1 den refl small-IsSound refl den_found
      (record {
        working = refl;
        processing = refl;
        sending = refl;
        no_job = refl;
        no_package = refl;
      })
      ((omega arith, omega arith), ((omega arith, omega arith), tt)) (omega arith) client client
      screen screen 72 (105 ∷ []) [] refl hi_plain ((omega arith, omega arith), tt) refl refl refl
      refl refl refl refl

-- `"/all hi"`.
abbrev all_hi : List ℕ
all_hi = b'/' ∷ b'a' ∷ b'l' ∷ b'l' ∷ b' ' ∷ 104 ∷ 105 ∷ []

hi_for_all : send_chat all_hi ≡ pk_c_broadcast (104 ∷ 105 ∷ [])
unfolding send_chat starts_with
hi_for_all = refl

shouting_example :
    (bytes : List ℕ) × (say_and_send client 3 all_hi ≡ ok (some bytes))
    × (relay 9 small 100 bytes [] (length (everyone small.room_list))
        ≡ ok (
            sent_to small
              (sockets small.heap (everyone small.room_list))
              (shouted alice (104 ∷ 105 ∷ []))))
    × ((recv_round 9 client (shouted alice (104 ∷ 105 ∷ [])) >>= logic_round)
        ≡ ok (record client {
          display = room_display (print screen (cast 228 (65 ∷ []) (104 ∷ 105 ∷ [])));
        }))
shouting_example =
    shouting 9 small 100 alice (104 ∷ 105 ∷ []) refl small-IsSound
      (record {
        working = refl;
        processing = refl;
        sending = refl;
        no_job = refl;
        no_package = refl;
      })
      ((omega arith, omega arith), ((omega arith, omega arith), tt)) (omega arith) client client
      screen screen b'/' (b'a' ∷ b'l' ∷ b'l' ∷ b' ' ∷ 104 ∷ 105 ∷ []) [] hi_for_all
      ((omega arith, omega arith), tt) refl refl refl refl refl refl refl
