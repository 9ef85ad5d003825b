-- ===== src/Server/Logic.antt =====
-- ChattingServer_v1.1/ChattingServer/LogicProcessFunc.cpp and the dispatch of LogicProcess.h: what a
-- packet from a client does. `s` is the session that the packet came through.
use tcp_socket_chatting_serv.Base.{ℕ, List, Option, none, some, Result, ok, ◌>>=◌}
use tcp_socket_chatting_serv.Packet.Types.{
  Packet, pk_c_server_enter, pk_c_server_exit, pk_c_room_enter, pk_c_room_exit, pk_c_broadcast,
  pk_c_multicast, pk_c_unicast, pk_c_room_create, pk_c_lobby_room_info, pk_s_broadcast,
  pk_s_multicast, pk_s_unicast_ok, pk_s_unicast_no,
}
use tcp_socket_chatting_serv.Base.{false}
use tcp_socket_chatting_serv.Server.World.{World, deref, put_user, push_package, non_null}
use tcp_socket_chatting_serv.Server.Rooms.{
  room_cast, enter_room, exit_room, get_room, push_into_lobby, send_room_list_to_one, broadcast,
  add_room,
}
use tcp_socket_chatting_serv.Server.Users.{
  get_user, get_session, find_by_nickname, remove_user, send_accept_packet,
}

-- `uMgr_->GetUser(package.session_->GetId())`.
unfoldable pub user_of : World → ℕ → Result (Option ℕ)
user_of w s = do u ← deref w s; ok (get_user w u.session.user_id)

unfoldable pub on_server_enter : World → ℕ → List ℕ → Result World
on_server_enter w s nickname = do
  found ← user_of w s
  p ← non_null found
  user ← deref w p
  w₁ ← send_accept_packet (put_user w p (record user { nickname = nickname })) s
  ok (send_room_list_to_one w₁ (some s))

unfoldable pub on_server_exit : World → ℕ → Result World
on_server_exit w s = do found ← user_of w s; p ← non_null found; remove_user w p

-- `RoomManager::CreateRoom` of RoomManager.cpp.
unfoldable pub create_room : World → ℕ → List ℕ → Result World
create_room w uid name = do
  session ← get_session (add_room w name) uid
  ok (send_room_list_to_one (add_room w name) session)

unfoldable pub on_room_create : World → ℕ → List ℕ → Result World
on_room_create w s name = do u ← deref w s; create_room w u.session.user_id name

unfoldable pub on_room_enter : World → ℕ → ℕ → Result World
on_room_enter w s rid = do
  found ← user_of w s
  room ← non_null (get_room w rid)
  p ← non_null found
  enter_room w room p

unfoldable pub on_room_exit : World → ℕ → Result World
on_room_exit w s = do
  found ← user_of w s
  p ← non_null found
  user ← deref w p
  room ← non_null user.curr_room
  w' ← exit_room w room p false
  ok (push_into_lobby w' p)

-- What `C_UNICAST` sends, to the sender and to the user that was looked for.
unfoldable pub answer_unicast : World → ℕ → List ℕ → List ℕ → Option ℕ → Result World
answer_unicast w sender nickname text none =
    ok (push_package w (record { session = some sender; packet = some pk_s_unicast_no }))
answer_unicast w sender nickname text (some recver) = do
  let packet = pk_s_unicast_ok nickname text
  _ ← deref w recver
  ok (
      push_package (push_package w (record { session = some sender; packet = some packet }))
        (record { session = some recver; packet = some packet }))

unfoldable pub on_unicast : World → ℕ → List ℕ → List ℕ → Result World
on_unicast w s recver text = do
  found ← user_of w s
  target ← find_by_nickname w recver
  sender ← non_null found
  user ← deref w sender
  answer_unicast w sender user.nickname text target

unfoldable pub on_multicast : World → ℕ → List ℕ → Result World
on_multicast w s text = do
  found ← user_of w s
  p ← non_null found
  user ← deref w p
  room ← non_null user.curr_room
  room_cast w room (pk_s_multicast user.nickname text)

unfoldable pub on_broadcast : World → ℕ → List ℕ → Result World
on_broadcast w s text = do
  found ← user_of w s
  p ← non_null found
  user ← deref w p
  broadcast w (pk_s_broadcast user.nickname text)

-- `LogicProcess::Process`: the function that the map has for the packet's type, if any. (A packet of
-- another type does nothing.)
unfoldable pub process : World → ℕ → Packet → Result World
process w s (pk_c_server_enter nickname) = on_server_enter w s nickname
process w s pk_c_server_exit = on_server_exit w s
process w s pk_c_lobby_room_info = ok (send_room_list_to_one w (some s))
process w s (pk_c_room_create name) = on_room_create w s name
process w s (pk_c_room_enter rid) = on_room_enter w s rid
process w s pk_c_room_exit = on_room_exit w s
process w s (pk_c_unicast recver text) = on_unicast w s recver text
process w s (pk_c_multicast text) = on_multicast w s text
process w s (pk_c_broadcast text) = on_broadcast w s text
process w s packet = ok w
