-- ===== src/Client/Threads.antt =====
-- ChattingServer_v1.1/ChattingClient/Client.cpp: a round of each thread, and what the keys and lines do
-- on the pages.
use tcp_socket_chatting_serv.Base.{
  ℕ, ◌%◌, ◌^◌, Bool, ◌&&◌, List, [], ◌∷◌, ◌++◌, Option, none, some, take, length, fill, ◌==◌,
  if◌then◌else◌, Result, ok, fault, dangling, ◌>>=◌,
}
use tcp_socket_chatting_serv.Stream.{sock_buf_size, initialize, splice}
use tcp_socket_chatting_serv.Packet.Types.{Packet, pk_c_room_create, pk_c_room_enter}
use tcp_socket_chatting_serv.Packet.Wire.{encode}
use tcp_socket_chatting_serv.Packet.Factory.{get_packet}
use tcp_socket_chatting_serv.Client.Commands.{send_chat}
use tcp_socket_chatting_serv.Client.Lobby.{LobbyDisplay, cursor_up, cursor_down, get_selection}
use tcp_socket_chatting_serv.Client.Room.{RoomDisplay}
use tcp_socket_chatting_serv.Client.State.{
  is_lobby, is_chatroom, lobby_display, Client, push_queue, as_lobby, as_room, recv_process,
}

-- The bytes that `SendThread` hands to `send`: those that the stream holds.
unfoldable pub client_bytes : Packet → List ℕ
client_bytes packet = let s = encode packet initialize in take s.offset s.stream

-- A round of `SendThread`, with `PopQueue`: the client, and what was sent.
unfoldable pub send_front : Client → Bool → List Packet → Client × Option (List ℕ)
send_front c sent [] = (c, none)
send_front c sent (packet ∷ rest) = (
  record c { send_queue = rest; is_worker_run = c.is_worker_run && sent },
  some (client_bytes packet),
)

unfoldable pub send_round : Client → Bool → Client × Option (List ℕ)
unfolding send_front
send_round c sent = if c.is_worker_run then send_front c sent c.send_queue else (c, none)

-- A round of `RecvThread` in which `recv` gave the bytes, one at least and 1024 at most.
unfoldable pub recv_round : ℕ → Client → List ℕ → Result Client
recv_round junk c bytes =
    if c.is_worker_run
    then (do
      packet ← get_packet junk (splice 0 bytes (fill sock_buf_size 0)) (length bytes)
      ok (record c { recv_queue = c.recv_queue ++ packet ∷ [] }))
    else ok c

-- A round of `LogicThread`.
unfoldable pub logic_front : Client → List Packet → Result Client
logic_front c [] = ok c
logic_front c (packet ∷ rest) = recv_process (record c { recv_queue = rest }) packet

unfoldable pub logic_round : Client → Result Client
unfolding logic_front
logic_round c = if c.is_worker_run then logic_front c c.recv_queue else ok c

-- A pointer to a display that a page took: the display that it points to may have been deleted.
unfoldable pub live_lobby : Client → ℕ → Result LobbyDisplay
unfolding as_lobby
live_lobby c page = if page == c.display_no then as_lobby c.display else fault dangling

unfoldable pub live_room : Client → ℕ → Result RoomDisplay
unfolding as_room
live_room c page = if page == c.display_no then as_room c.display else fault dangling

-- `LobbyPage`, once `_getch` has given a key: the enter key, the second half of an arrow key, any key.
-- A new room is called `"Test room name"`.
abbrev pub test_room_name : List ℕ
test_room_name =
    b'T' ∷ b'e' ∷ b's' ∷ b't' ∷ b' ' ∷ b'r' ∷ b'o' ∷ b'o' ∷ b'm' ∷ b' ' ∷ b'n' ∷ b'a' ∷ b'm' ∷ b'e'
    ∷ []

unfoldable pub selected_packet : ℕ → Packet
selected_packet selected =
    if selected == 0 then pk_c_room_create test_room_name else pk_c_room_enter (selected % 2 ^ 16)

unfoldable pub press_enter : Client → ℕ → Result Client
unfolding live_lobby selected_packet push_queue
press_enter c page = do
  d ← live_lobby c page
  selected ← get_selection d
  ok (push_queue c (selected_packet selected))

unfoldable pub press_arrow : Client → ℕ → ℕ → Result Client
unfolding live_lobby
press_arrow c page key =
    if key == 72
    then (do d ← live_lobby c page; ok (record c { display = lobby_display (cursor_up d) }))
    else if key == 80
    then (do d ← live_lobby c page; ok (record c { display = lobby_display (cursor_down d) }))
    else ok c

unfoldable pub lobby_key : Client → ℕ → ℕ → ℕ → Result Client
unfolding press_enter press_arrow is_lobby
lobby_key c page key second =
    if key == 224
    then (if is_lobby c.state then press_arrow c page second else ok c)
    else if key == 13
    then press_enter c page
    else ok c

-- `ChatRoomPage`, once `getline` has given a line.
unfoldable pub say : Client → ℕ → List ℕ → Result Client
unfolding live_room is_chatroom push_queue
say c page [] = ok c
say c page (ch ∷ line) =
    if is_chatroom c.state
    then (do _ ← live_room c page; ok (push_queue c (send_chat (ch ∷ line))))
    else ok c
