-- ===== src/Server/Rooms.antt =====
-- ChattingServer_v1.1/ChattingServer/Room.cpp and RoomManager.cpp (with RoomManager.h).
use mathlib.Core.Option
use tcp_socket_chatting_serv.Base.{
  ℕ, ◌+◌, ◌%◌, ◌^◌, Bool, List, [], ◌∷◌, Option, some, length, map, ◌==◌, if◌then◌else◌, Result, ok,
  or_fault, dangling, ◌>>=◌,
}
use tcp_socket_chatting_serv.Containers.{set_insert, set_erase, lookup, map_insert, modify}
use tcp_socket_chatting_serv.Packet.Types.{
  Packet, pk_s_room_enter, pk_s_room_exit, pk_s_room_name, pk_s_lobby_room_info,
}
use tcp_socket_chatting_serv.Server.World.{Room, World, deref, user_enter, user_exit, push_package}

-- A room behind a pointer.
unfoldable pub room_at : World → ℕ → Result Room
room_at w rid = or_fault dangling (lookup rid w.room_list)

unfoldable pub put_users : World → ℕ → (List ℕ → List ℕ) → World
put_users w rid f = record w {
  room_list = modify rid (λ r. record r { users = f r.users }) w.room_list;
}

-- The loop of `RoomCast`, and of `SendRoomListToAll`: a package for the session of each user.
unfoldable pub cast_to : World → List ℕ → Packet → Result World
cast_to w [] packet = ok w
cast_to w (p ∷ users) packet = do
  _ ← deref w p
  cast_to (push_package w (record { session = some p; packet = some packet })) users packet

-- `Room::RoomCast`.
unfoldable pub room_cast : World → ℕ → Packet → Result World
room_cast w rid packet = do room ← room_at w rid; cast_to w room.users packet

-- `Room::EnterRoom`.
unfoldable pub enter_room : World → ℕ → ℕ → Result World
enter_room w rid p = do
  w₁ ← user_enter w p rid
  u ← deref w₁ p
  w₂ ← room_cast (put_users w₁ rid (set_insert p)) rid (pk_s_room_enter u.user_id u.nickname)
  room ← room_at w₂ rid
  ok (push_package w₂ (record { session = some p; packet = some (pk_s_room_name room.room_name) }))

-- The loop of `Room::ExitRoom` that passes over the user with the number `uid`.
unfoldable pub cast_except : World → List ℕ → ℕ → Packet → Result World
cast_except w [] uid packet = ok w
cast_except w (p ∷ users) uid packet = do
  recver ← deref w p
  let w' = push_package w (record { session = some p; packet = some packet })
  cast_except (if recver.user_id == uid then w else w') users uid packet

-- `Room::ExitRoom`.
unfoldable pub exit_room : World → ℕ → ℕ → Bool → Result World
exit_room w rid p sender_exclusive = do
  u ← deref w p
  room ← room_at w rid
  w₁ ←
      if sender_exclusive
      then cast_except w room.users u.user_id (pk_s_room_exit u.user_id)
      else cast_to w room.users (pk_s_room_exit u.user_id)
  w₂ ← user_exit w₁ p
  ok (put_users w₂ rid (set_erase p))

-- `RoomManager::GetRoom`: the number of the room, as the pointer to it.
unfoldable pub get_room : World → ℕ → Option ℕ
get_room w rid = Option.map (λ _. rid) (lookup rid w.room_list)

-- `RoomManager::PushIntoLobby` and `RemoveFromLobby`.
unfoldable pub push_into_lobby : World → ℕ → World
push_into_lobby w p = record w { user_in_lobby = set_insert p w.user_in_lobby }

unfoldable pub remove_from_lobby : World → ℕ → World
remove_from_lobby w p = record w { user_in_lobby = set_erase p w.user_in_lobby }

-- The packet that lists the rooms, in the order of the map.
unfoldable pub room_info : List (ℕ × Room) → Packet
room_info rooms =
    pk_s_lobby_room_info (length rooms % 2 ^ 16) (map (λ (_, r). r.room_id) rooms)
      (map (λ (_, r). r.room_name) rooms)

-- `RoomManager::SendRoomListToOne`. It does not look at the session.
unfoldable pub send_room_list_to_one : World → Option ℕ → World
send_room_list_to_one w session =
    push_package w (record { session = session; packet = some (room_info w.room_list) })

-- `RoomManager::SendRoomListToAll`.
unfoldable pub send_room_list_to_all : World → Result World
send_room_list_to_all w = cast_to w w.user_in_lobby (room_info w.room_list)

-- `RoomManager::BroadCast`: a cast in each room, in the order of the map.
unfoldable pub broadcast_in : World → List (ℕ × Room) → Packet → Result World
broadcast_in w [] packet = ok w
broadcast_in w ((_, room) ∷ rooms) packet = do
  w' ← cast_to w room.users packet
  broadcast_in w' rooms packet

unfoldable pub broadcast : World → Packet → Result World
broadcast w packet = broadcast_in w w.room_list packet

-- The part of `RoomManager::CreateRoom` that makes the room. Room numbers are 16 bits wide; where the
-- number is taken, the map keeps the room that has it, and the new one is lost.
unfoldable pub add_room : World → List ℕ → World
add_room w name = record w {
  room_list = map_insert w.room_id new_room w.room_list;
  room_id = (w.room_id + 1) % 2 ^ 16;
}
  where
    new_room : Room
    new_room = record { room_id = w.room_id; room_name = name; users = [] }
