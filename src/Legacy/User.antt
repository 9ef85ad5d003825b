-- ===== src/Legacy/User.antt =====
-- ChattingServer_v1.0/ChattingServer/ClientInfo.h, ClientInfo.cpp, UserInfo.h: a client object of the
-- pool, its socket and its room. A client's index is its place in the pool.
use tcp_socket_chatting_serv.Base.{
  ℕ, Bool, true, false, List, Option, none, some, fill, length, leb, ◌==◌, if◌then◌else◌, Result,
  ok, ◌>>◌, guard, out_of_range,
}
use tcp_socket_chatting_serv.Stream.{splice}

pub data IoOperation : Type 0 where
  io_recv io_send io_close : IoOperation

-- `socket` is `none` for `INVALID_SOCKET`, `id` for -1.
pub record UserInfo : Type 0 where
  pub socket : Option ℕ
  pub room : ℕ
  pub prev_room : ℕ
  pub id : Option ℕ
  pub nickname : List ℕ

-- `LOBBY`.
abbrev pub lobby_no : ℕ
lobby_no = 0

unfoldable pub new_user : UserInfo
new_user = record {
  socket = none;
  room = lobby_no;
  prev_room = lobby_no;
  id = none;
  nickname = fill 32 0;
}

unfoldable pub has_socket : Option ℕ → Bool
has_socket none = false
has_socket (some socket) = true

unfoldable pub is_connected : UserInfo → Bool
unfolding has_socket
is_connected u = has_socket u.socket

-- `Close`, with `Initialize`: the room, the room before and the nickname stay.
unfoldable pub close : UserInfo → UserInfo
close u = record u { socket = none }

-- `BindRecv`, with whether `WSARecv` took the buffer.
unfoldable pub bind_recv : Bool → UserInfo → UserInfo × Bool
unfolding close
bind_recv recv_ok u = if recv_ok then (u, true) else (close u, false)

-- `Connect`, with whether the socket was bound to the completion port.
unfoldable pub connect : ℕ → Bool → Bool → UserInfo → UserInfo × Bool
unfolding bind_recv
connect socket bound recv_ok u =
    let connected = record u { socket = some socket } in
    if bound then bind_recv recv_ok connected else (connected, false)

-- `SetNickname` with the next `id`: the bytes of the name without its NUL, over the old name.
unfoldable pub set_nickname : ℕ → List ℕ → UserInfo → Result UserInfo
set_nickname next_id nickname u = do
  guard (leb (length nickname) 32) out_of_range
  ok (record u { room = lobby_no; id = some next_id; nickname = splice 0 nickname u.nickname })

unfoldable pub enter_room : ℕ → UserInfo → UserInfo
enter_room room u = if u.room == lobby_no then record u { room = room } else u

unfoldable pub exit_room : UserInfo → UserInfo
exit_room u = if u.room == lobby_no then u else record u { prev_room = u.room; room = lobby_no }
