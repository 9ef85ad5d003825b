-- ===== src/Tests/Typing.antt =====
-- Lines and keys of the clients.
use mathlib.Core.Logic.{◌↔◌}
use tcp_socket_chatting_serv.Base.{
  ℕ, ◌≡◌, refl, true, false, none, some, ◌⊎◌, List, [], ◌∷◌, ◌++◌, map, All, ◌≤◌, length, str_eq,
  fill, length-fill, arith, ok,
}
use tcp_socket_chatting_serv.Packet.Types.{Packet, pk_c_unicast}
use tcp_socket_chatting_serv.Client.Commands.{
  starts_with, find, whisper, send_chat, typed, IsCommand,
}
use tcp_socket_chatting_serv.Client.Commands.Meaning.{send_chat_iff}
use tcp_socket_chatting_serv.Client.Lobby.{LobbyDisplay, get_selection}
use tcp_socket_chatting_serv.Client.Lobby.Cursor.{
  up, down, moves, walk, Shows, Selects, moves-Selects,
}
use tcp_socket_chatting_serv.Legacy.Packets.{chat_multicast}
use tcp_socket_chatting_serv.Legacy.Client.{ChatClient, arrow_key, plain_key, choose_room}
use tcp_socket_chatting_serv.Legacy.Messages.{chat_bytes, process_send_msg}
use tcp_socket_chatting_serv.Legacy.Screen.{
  chat_box_size, is_minus, cuts_char, receive, receive_cases,
}
use tcp_socket_chatting_serv.Legacy.Lines.{joined, packet_count, multicast_line}

abbrev whisper_line : List ℕ
whisper_line = b'/' ∷ b'b' ∷ b' ' ∷ b'h' ∷ b'i' ∷ []

abbrev whisper_packet : Packet
whisper_packet = pk_c_unicast (b'b' ∷ []) (b'h' ∷ b'i' ∷ [])

send_chat_iff_example :
    (send_chat whisper_line ≡ whisper_packet)
    ↔ (IsCommand whisper_packet × (typed whisper_packet ≡ whisper_line))
send_chat_iff_example = send_chat_iff whisper_line whisper_packet

whisper_test : send_chat whisper_line ≡ whisper_packet
unfolding send_chat starts_with find whisper str_eq
whisper_test = refl

-- Two rooms, with the cursor on the first.
abbrev two_rooms : LobbyDisplay
two_rooms = record {
  cursor_index = 4;
  chat_rooms = (68 ∷ []) ∷ (72 ∷ []) ∷ [];
  chat_room_ids = 7 ∷ 9 ∷ [];
  users = [];
  my_id = 1;
}

two_rooms-Shows : Shows two_rooms 0
two_rooms-Shows = record { cursor = refl; within = omega arith; few = omega arith; ids = refl }

moves-Selects_example :
    Selects
      (7 ∷ 9 ∷ [])
      (walk 2 0 (down ∷ down ∷ up ∷ []))
      (get_selection (moves two_rooms (down ∷ down ∷ up ∷ [])))
moves-Selects_example = moves-Selects two_rooms 0 (down ∷ down ∷ up ∷ []) two_rooms-Shows

abbrev speaker : ChatClient
speaker = record { nickname = 65 ∷ []; room = 1; is_worker_run = true; sent = [] }

hello_plain : starts_with (b'/' ∷ []) (b'h' ∷ b'i' ∷ []) ≡ false
unfolding starts_with
hello_plain = refl

multicast_line_example :
    (parts : List (List ℕ)) × (process_send_msg (fill 32 9) (λ _. true) (b'h' ∷ b'i' ∷ []) speaker
      ≡ ok (
        record speaker { sent = [] ++ map (chat_bytes (fill 32 9) chat_multicast (65 ∷ [])) parts },
        chat_multicast,
      ))
    × (joined parts ≡ b'h' ∷ b'i' ∷ [])
    × All (λ part. length part ≤ 600) parts
    × (length parts ≡ packet_count 2)
multicast_line_example = multicast_line (fill 32 9) (b'h' ∷ b'i' ∷ []) speaker hello_plain

-- The third room is chosen.
choose_room_test :
    choose_room 1
      (arrow_key 80 ∷ arrow_key 80 ∷ plain_key 80 ∷ arrow_key 80 ∷ arrow_key 72 ∷ plain_key 13 ∷ [])
    ≡ some 3
unfolding choose_room
choose_room_test = refl

-- A text that ends below zero.
abbrev long_text : List ℕ
long_text = fill 60 200

long_text_minus : cuts_char long_text (length long_text) ≡ true
unfolding cuts_char is_minus fill
long_text_minus = refl

long_text_size : chat_box_size ≤ length long_text
long_text_size = omega (arith, length-fill {A = ℕ} 60 200)

receive_cases_example :
    ((cuts_char long_text (length long_text) ≡ true)
      × ((fuel : ℕ) → receive fuel (65 ∷ []) long_text ≡ ok none))
    ⊎ ((cuts_char long_text (length long_text) ≡ false)
        × ((pieces : List (List ℕ)) × (receive (length long_text) (65 ∷ []) long_text
              ≡ ok (some pieces))
            × (joined pieces ≡ long_text)))
receive_cases_example = receive_cases (65 ∷ []) long_text (omega arith) long_text_size
