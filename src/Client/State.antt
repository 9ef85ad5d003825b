-- ===== src/Client/State.antt =====
-- ChattingServer_v1.1/ChattingClient/Client.h, Client.cpp, ClientFunc.cpp: the client's state, and the
-- functions of its threads. A `Display*` is the number of the display, and a display that is replaced
-- is deleted.
use tcp_socket_chatting_serv.Base.{
  ℕ, ◌+◌, Bool, true, false, List, [], ◌∷◌, ◌++◌, Option, none, some, ◌==◌, if◌then◌else◌, Result,
  ok, fault, null_pointer, wrong_type, ◌>>=◌,
}
use tcp_socket_chatting_serv.Packet.Types.{
  Packet, pk_c_server_enter, pk_c_lobby_room_info, pk_s_server_enter_ok, pk_s_lobby_room_info,
  pk_s_lobby_user_info, pk_s_room_enter, pk_s_room_exit, pk_s_room_name, pk_s_multicast,
  pk_s_broadcast, pk_s_unicast_ok, pk_s_unicast_no,
}
use tcp_socket_chatting_serv.Client.Lobby.{LobbyDisplay, new_lobby, set_room_list}
use tcp_socket_chatting_serv.Client.Room.{
  RoomDisplay, new_room, set_room_name, update_player, remove_player, on_recv,
}

pub data ClientState : Type 0 where
  pending login lobby chatroom : ClientState

-- `state_ == ...`.
unfoldable pub is_lobby : ClientState → Bool
is_lobby lobby = true
is_lobby s = false

unfoldable pub is_chatroom : ClientState → Bool
is_chatroom chatroom = true
is_chatroom s = false

-- What `display_` points to.
pub data Display : Type 0 where
  no_display login_display : Display
  lobby_display : LobbyDisplay → Display
  room_display : RoomDisplay → Display

-- `display_no` tells the displays that `display_` has pointed to apart.
pub record Client : Type 0 where
  pub nickname : List ℕ
  pub user_id : ℕ
  pub state : ClientState
  pub display : Display
  pub display_no : ℕ
  pub send_queue : List Packet
  pub recv_queue : List Packet
  pub is_worker_run : Bool

-- The constructor, and `Initialize` where the socket is connected.
unfoldable pub new_client : Client
new_client = record {
  nickname = [];
  user_id = 0;
  state = pending;
  display = no_display;
  display_no = 0;
  send_queue = [];
  recv_queue = [];
  is_worker_run = true;
}

-- `delete display_`, and a new display.
unfoldable pub show : Client → Display → Client
show c d = record c { display = d; display_no = c.display_no + 1 }

unfoldable pub initialize_client : Client → Client
unfolding show
initialize_client c = record (show c login_display) { state = login }

unfoldable pub push_queue : Client → Packet → Client
push_queue c packet = record c { send_queue = c.send_queue ++ packet ∷ [] }

-- `static_cast` of the display, and a use of the result.
unfoldable pub as_lobby : Display → Result LobbyDisplay
as_lobby (lobby_display d) = ok d
as_lobby no_display = fault null_pointer
as_lobby d = fault wrong_type

unfoldable pub as_room : Display → Result RoomDisplay
as_room (room_display d) = ok d
as_room no_display = fault null_pointer
as_room d = fault wrong_type

-- `SendNickname`, given the lines that are typed: empty ones are asked for again.
unfoldable pub send_nickname : Client → List (List ℕ) → Option Client
unfolding push_queue
send_nickname c [] = none
send_nickname c ([] ∷ lines) = send_nickname c lines
send_nickname c ((ch ∷ name) ∷ lines) = some (
    push_queue (record c { nickname = ch ∷ name; state = pending }) (pk_c_server_enter (ch ∷ name)))

unfoldable pub f_server_enter_ok : Client → ℕ → Client
unfolding push_queue show
f_server_enter_ok c pid =
    push_queue
      (record (show (record c { user_id = pid }) (lobby_display (new_lobby pid))) { state = lobby })
      pk_c_lobby_room_info

unfoldable pub f_lobby_room_info : Client → ℕ → List ℕ → List (List ℕ) → Result Client
unfolding as_lobby
f_lobby_room_info c room_count ids names = if room_count == 0 then ok c else (do
  d ← as_lobby c.display
  ok (record c { display = lobby_display (set_room_list d ids names) }))

-- A client in the lobby changes to the room; then the display is taken for that of a room.
unfoldable pub into_room : Client → Client
unfolding show is_lobby
into_room c =
    if is_lobby c.state
    then record (show c (room_display (new_room c.user_id c.nickname))) { state = chatroom }
    else c

unfoldable pub f_room_enter : Client → ℕ → List ℕ → Result Client
unfolding into_room as_room
f_room_enter c uid name = do
  let c' = into_room c
  d ← as_room c'.display
  ok (record c' { display = room_display (update_player d uid name) })

unfoldable pub f_room_exit : Client → ℕ → Result Client
unfolding show as_room
f_room_exit c uid =
    if uid == c.user_id
    then ok (record (show c (lobby_display (new_lobby c.user_id))) { state = lobby })
    else (do d ← as_room c.display; ok (record c { display = room_display (remove_player d uid) }))

unfoldable pub f_room_name : Client → List ℕ → Result Client
unfolding as_room
f_room_name c name = do
  d ← as_room c.display
  ok (record c { display = room_display (set_room_name d name) })

unfoldable pub f_recv_cast : Client → Packet → Result Client
unfolding as_room
f_recv_cast c packet = do
  d ← as_room c.display
  d' ← on_recv d packet
  ok (record c { display = room_display d' })

-- `RecvProcess`: the function that the map has for the packet's type, if any.
unfoldable pub recv_process : Client → Packet → Result Client
recv_process c (pk_s_server_enter_ok pid) = ok (f_server_enter_ok c pid)
recv_process c (pk_s_lobby_room_info n ids names) = f_lobby_room_info c n ids names
recv_process c (pk_s_lobby_user_info rooms n ids names) = ok c
recv_process c (pk_s_room_enter uid name) = f_room_enter c uid name
recv_process c (pk_s_room_exit uid) = f_room_exit c uid
recv_process c (pk_s_room_name name) = f_room_name c name
recv_process c (pk_s_multicast nickname text) = f_recv_cast c (pk_s_multicast nickname text)
recv_process c (pk_s_broadcast nickname text) = f_recv_cast c (pk_s_broadcast nickname text)
recv_process c (pk_s_unicast_ok nickname text) = f_recv_cast c (pk_s_unicast_ok nickname text)
recv_process c pk_s_unicast_no = f_recv_cast c pk_s_unicast_no
recv_process c packet = ok c
