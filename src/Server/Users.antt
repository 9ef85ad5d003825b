-- ===== src/Server/Users.antt =====
-- ChattingServer_v1.1/ChattingServer/UserManager.cpp, with the connection part of Session.cpp and
-- ChatUser.h.
use tcp_socket_chatting_serv.Base.{
  ℕ, ◌+◌, ◌-◌, ◌%◌, ◌^◌, Bool, true, false, not, ◌==◌, List, [], ◌∷◌, Option, none, some, str_eq,
  if◌then◌else◌, Result, ok, ◌>>=◌,
}
use tcp_socket_chatting_serv.Containers.{lookup, map_insert, map_erase}
use tcp_socket_chatting_serv.Packet.Types.{pk_s_server_enter_ok}
use tcp_socket_chatting_serv.Server.World.{
  Session, User, World, deref, put_user, delete_user, close, push_package,
}
use tcp_socket_chatting_serv.Server.Rooms.{exit_room, push_into_lobby, remove_from_lobby}

-- What the system answers while a user is created: the handle that `CreateIoCompletionPort` gives,
-- which is 0 where it fails, and that `WSARecv` fails neither at once nor otherwise than as pending.
pub record Answers : Type 0 where
  pub port : ℕ
  pub recv_ok : Bool

-- `Session::BindRecv`, given the answer of `WSARecv`.
unfoldable pub bind_recv : World → Session → Bool → World × Bool
bind_recv w s recv_ok = if recv_ok then (w, true) else (close w s, false)

-- `INVALID_HANDLE_VALUE`, and the test of `Session::BindIOCompletionPort`.
abbrev pub invalid_handle : ℕ
invalid_handle = 2 ^ 64 - 1

unfoldable pub bind_port : ℕ → Bool
bind_port port = not (port == invalid_handle)

-- `Session::Connect`, of a session whose socket was just set.
unfoldable pub connect : World → Session → Answers → World × Bool
unfolding bind_port
connect w s a =
    let (w', received) = bind_recv w s a.recv_ok in
    if bind_port a.port then (if received then (w', true) else (close w' s, false)) else (w, false)

abbrev pub new_user : ℕ → ℕ → User
new_user uid socket = record {
  session = record { socket = socket; user_id = uid };
  user_id = uid;
  curr_room = none;
  nickname = [];
}

-- The rest of `UserManager::CreateUser` once the user at `p` is initialized. User numbers are 32 bits
-- wide; where the number is taken, the map keeps the user that has it.
unfoldable pub register : World → ℕ → User → World
register w p u =
    push_into_lobby
      (record (put_user w p u) {
        user_list = map_insert w.user_id p w.user_list;
        user_id = (w.user_id + 1) % 2 ^ 32;
      })
      p

-- `UserManager::CreateUser`, with `p` the address of the new user.
unfoldable pub create_user : World → ℕ → ℕ → Answers → World × Bool
create_user w p socket a =
    let (w', connected) = connect w (record { socket = socket; user_id = w.user_id }) a in
    if connected then (register w' p (new_user w.user_id socket), true) else (w', false)

-- `UserManager::GetUser`, and `GetSession`, whose pointer is that of the user.
unfoldable pub get_user : World → ℕ → Option ℕ
get_user w uid = lookup uid w.user_list

unfoldable pub session_at : World → Option ℕ → Result (Option ℕ)
session_at w none = ok none
session_at w (some p) = do _ ← deref w p; ok (some p)

unfoldable pub get_session : World → ℕ → Result (Option ℕ)
get_session w uid = session_at w (get_user w uid)

-- `UserManager::FindByNickname`: the first of the map that has the name.
unfoldable pub find_in : World → List (ℕ × ℕ) → List ℕ → Result (Option ℕ)
find_in w [] name = ok none
find_in w ((_, p) ∷ users) name = do
  u ← deref w p
  if str_eq name u.nickname then ok (some p) else find_in w users name

unfoldable pub find_by_nickname : World → List ℕ → Result (Option ℕ)
find_by_nickname w name = find_in w w.user_list name

-- Where a user is taken out of: the lobby, or the room that the user is in.
unfoldable pub leave_place : World → ℕ → Option ℕ → Result World
leave_place w p none = ok (remove_from_lobby w p)
leave_place w p (some rid) = exit_room w rid p true

-- `UserManager::RemoveUser` of a user.
unfoldable pub remove_user : World → ℕ → Result World
remove_user w p = do
  u ← deref w p
  w₁ ← leave_place w p u.curr_room
  let w₂ = close w₁ u.session
  ok (delete_user (record w₂ { user_list = map_erase u.user_id w₂.user_list }) p)

-- `UserManager::RemoveUser` of a number: a number that is not on the list passes by.
unfoldable pub remove_found : World → Option ℕ → Result World
remove_found w none = ok w
remove_found w (some p) = remove_user w p

unfoldable pub remove_user_id : World → ℕ → Result World
remove_user_id w uid = remove_found w (get_user w uid)

-- `UserManager::SendAcceptPacket`.
unfoldable pub send_accept_packet : World → ℕ → Result World
send_accept_packet w session = do
  u ← deref w session
  ok (
      push_package w
        (record { session = some session; packet = some (pk_s_server_enter_ok u.session.user_id) }))
