-- ===== src/Legacy/Cast.antt =====
-- ChattingServer_v1.0/ChattingServer/ChatClientManager.h and `SendMsg` of ClientInfo.cpp: sending to
-- one client, to a room, to all. `sends` tells for which clients `WSASend` takes the bytes; it never
-- does for a client without a socket.
use tcp_socket_chatting_serv.Base.{
  ℕ, ◌+◌, Bool, ◌&&◌, List, [], ◌∷◌, ◌++◌, Option, none, some, take, ◌==◌, if◌then◌else◌, Result,
  ok, ◌>>=◌,
}
use tcp_socket_chatting_serv.Legacy.Slots.{range}
use tcp_socket_chatting_serv.Legacy.User.{
  IoOperation, io_send, io_close, UserInfo, lobby_no, is_connected, set_nickname,
}
use tcp_socket_chatting_serv.Legacy.Manager.{ClientManager, client_at, put_client, drop_client}
use tcp_socket_chatting_serv.Legacy.Packets.{PacketInfo, name_at}

-- `FindNickname`, which returns before its search.
unfoldable pub find_nickname : ClientManager → List ℕ → Option ℕ
find_nickname m nickname = none

-- `SetNickname`: the sender's name is at the fifth byte.
unfoldable pub name_client : PacketInfo → ClientManager → Result ClientManager
unfolding client_at put_client name_at
name_client p m = do
  u ← client_at m p.client_index
  nickname ← name_at 4 p.packet_data
  u' ← set_nickname m.next_id nickname u
  ok (record (put_client m p.client_index u') { next_id = m.next_id + 1 })

-- `SendMsg`.
unfoldable pub send_msg :
    (ℕ → Bool) → ℕ → PacketInfo → IoOperation → ClientManager → Result ClientManager
unfolding client_at drop_client
send_msg sends i p operation m = do
  u ← client_at m i
  if is_connected u && sends i
      then ok (record m {
        sent =
            m.sent
            ++ record {
              receiver = i;
              bytes = take p.data_size p.packet_data;
              operation = operation;
            }
              ∷ [];
      })
      else drop_client i m

unfoldable pub uni_cast : (ℕ → Bool) → PacketInfo → ClientManager → Result ClientManager
unfolding send_msg
uni_cast sends p m = send_msg sends p.client_index p io_send m

unfoldable pub broad_from : (ℕ → Bool) → PacketInfo → List ℕ → ClientManager → Result ClientManager
unfolding send_msg client_at
broad_from sends p [] m = ok m
broad_from sends p (i ∷ is) m = do
  u ← client_at m i
  m' ← if is_connected u then send_msg sends i p io_send m else ok m
  broad_from sends p is m'

unfoldable pub broad_cast : (ℕ → Bool) → PacketInfo → ClientManager → Result ClientManager
unfolding broad_from
broad_cast sends p m = broad_from sends p (range 0 m.current_capacity) m

-- The operation of a send to the client `i`: the sender's own is the one that closes.
abbrev pub cast_operation : PacketInfo → ℕ → IoOperation
cast_operation p i = if p.is_close && (i == p.client_index) then io_close else io_send

unfoldable pub multi_from :
    (ℕ → Bool) → PacketInfo → ℕ → List ℕ → ClientManager → Result ClientManager
unfolding send_msg client_at
multi_from sends p room [] m = ok m
multi_from sends p room (i ∷ is) m = do
  u ← client_at m i
  m' ←
      if is_connected u && (u.room == room) then send_msg sends i p (cast_operation p i) m else ok m
  multi_from sends p room is m'

-- The room that a cast goes to, if any: the sender's, or the one that the sender left for the lobby.
unfoldable pub cast_room : UserInfo → Option ℕ
cast_room u =
    if u.room == lobby_no
    then (if u.prev_room == lobby_no then none else some u.prev_room)
    else some u.room

unfoldable pub multi_to : (ℕ → Bool) → PacketInfo → Option ℕ → ClientManager → Result ClientManager
unfolding multi_from
multi_to sends p none m = ok m
multi_to sends p (some room) m = multi_from sends p room (range 0 m.current_capacity) m

unfoldable pub multi_cast : (ℕ → Bool) → PacketInfo → ClientManager → Result ClientManager
unfolding client_at cast_room multi_to
multi_cast sends p m = do u ← client_at m p.client_index; multi_to sends p (cast_room u) m
