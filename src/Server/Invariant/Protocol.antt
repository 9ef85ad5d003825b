-- ===== src/Server/Invariant/Protocol.antt =====
-- The handlers of LogicProcessFunc.cpp on packets of clients who keep to the protocol.
use tcp_socket_chatting_serv.Server.Invariant.Exits.{
  left, removed, room_exit_lem, left-IsSound, remove_user-lobby, remove_user-room,
}
use tcp_socket_chatting_serv.Server.Invariant.Unicast.{unicast_lem}
use tcp_socket_chatting_serv.Server.Invariant.Handlers.{
  server_enter_lem, multicast_lem, broadcast_lem, room_create_lem, room_enter_lem, entered-IsSound,
}
use tcp_socket_chatting_serv.Base.{
  ℕ, ◌≡◌, refl, inl, inr, List, [], none, some, Option-cases, Result, ok,
}
use tcp_socket_chatting_serv.Containers.{set_erase, lookup, modify}
use tcp_socket_chatting_serv.Packet.Types.{
  Packet, pk_c_server_enter, pk_c_server_exit, pk_c_room_enter, pk_c_room_exit, pk_c_broadcast,
  pk_c_multicast, pk_c_unicast, pk_c_room_create, pk_c_lobby_room_info, pk_s_room_exit,
}
use tcp_socket_chatting_serv.Server.World.{
  close, delete_user, User, Room, World, SendPackage, update, put_user, push_package,
}
use tcp_socket_chatting_serv.Server.Rooms.{
  remove_from_lobby, put_users, push_into_lobby, send_room_list_to_one, add_room,
}
use tcp_socket_chatting_serv.Server.Users.{remove_user}
use tcp_socket_chatting_serv.Server.Logic.{process, on_server_exit}
use tcp_socket_chatting_serv.Server.Cast.{to_all, queued}
use tcp_socket_chatting_serv.Server.Invariant.Handlers.{user_of_lem}
use tcp_socket_chatting_serv.Server.Invariant.{IsSound, update_at}
use tcp_socket_chatting_serv.Server.Invariant.Changes.{with_users, Inv-rename, Inv-exit}
use tcp_socket_chatting_serv.Server.Invariant.Removal.{Inv-delete, Inv-add_room}

-- What the protocol asks of a packet from the user `u`: a room is entered from the lobby and must
-- exist, a room is left and spoken in by its members, and there is a free number for a new room. The
-- packets of the server do nothing here.
abbrev pub Conforms : World → User → Packet → Type 0
Conforms w u (pk_c_room_enter rid) =
    (u.curr_room ≡ none) × ((room : Room) × (lookup rid w.room_list ≡ some room))
Conforms w u pk_c_room_exit = (rid : ℕ) × (u.curr_room ≡ some rid)
Conforms w u (pk_c_multicast text) = (rid : ℕ) × (u.curr_room ≡ some rid)
Conforms w u (pk_c_room_create name) = lookup w.room_id w.room_list ≡ none
Conforms w u packet = Unit {0}

-- The call returns, and leaves a world in which the invariant holds.
abbrev pub Succeeds : Result World → Type 0
Succeeds r = (w' : World) × (r ≡ ok w') × IsSound w'

queued-IsSound : (w : World) (pkgs : List SendPackage) → IsSound w → IsSound (queued w pkgs)
unfolding queued
queued-IsSound w pkgs sound = sound

push_into_lobby-IsSound : (w : World) (p : ℕ) → IsSound w → IsSound (push_into_lobby w p)
unfolding push_into_lobby
push_into_lobby-IsSound w p sound = sound

module _ (w : World) (s : ℕ) (u : User) (here : w.heap s ≡ some u) (sound : IsSound w) where
  rename-IsSound : (nickname : List ℕ) → IsSound (put_user w s (record u { nickname = nickname }))
  unfolding put_user
  rename-IsSound nickname = Inv-rename w.heap w.user_list w.room_list s u here sound nickname

  add_room-IsSound :
      (name : List ℕ) → lookup w.room_id w.room_list ≡ none → IsSound (add_room w name)
  unfolding add_room
  add_room-IsSound name unused =
      Inv-add_room w.heap w.user_list w.room_list w.room_id
        (record { room_id = w.room_id; room_name = name; users = [] }) refl unused sound

  removed-lobby-IsSound :
      u.curr_room ≡ none → IsSound (removed (close (remove_from_lobby w s) u.session) s u)
  unfolding delete_user close remove_from_lobby
  removed-lobby-IsSound lobby = Inv-delete w.heap w.user_list w.room_list s u here sound lobby

  removed-room-IsSound :
      (rid : ℕ) (pkgs : List SendPackage)
      → u.curr_room ≡ some rid
      → IsSound (removed (close (left (queued w pkgs) s u rid) u.session) s u)
  unfolding delete_user close put_users put_user queued
  removed-room-IsSound rid pkgs inside =
      Inv-delete (update w.heap s (some u')) w.user_list
        (modify rid (with_users (set_erase s)) w.room_list) s u' (update_at w.heap s (some u'))
        (Inv-exit w.heap w.user_list w.room_list s u here sound rid inside) refl
    where
      u' : User
      u' = record u { curr_room = none }

  -- A user who is there can be removed.
  pub remove_user-Succeeds : Succeeds (remove_user w s)
  remove_user-Succeeds = elim (Option-cases u.curr_room) [
    | inl lobby ↦ (_, remove_user-lobby w s u here sound lobby, removed-lobby-IsSound lobby)
    | inr (rid, inside) ↦
        let (room, found, _) = sound.located s u rid here inside in
        (
          _,
          remove_user-room w s u here sound rid room inside found,
          removed-room-IsSound rid _ inside,
        )
  ]

  exit_server-Succeeds : Succeeds (process w s pk_c_server_exit)
  unfolding process on_server_exit
  exit_server-Succeeds = rw (user_of_lem w s u here sound) remove_user-Succeeds

  exit_room-Succeeds : (rid : ℕ) → u.curr_room ≡ some rid → Succeeds (process w s pk_c_room_exit)
  exit_room-Succeeds rid inside =
      let (room, found, _) = sound.located s u rid here inside in
      (
        _,
        room_exit_lem w s u here sound rid room inside found,
        push_into_lobby-IsSound _ s (
            left-IsSound (queued w (to_all room.users (pk_s_room_exit u.user_id))) s u
              (unfold queued in here) (queued-IsSound w _ sound) rid inside),
      )

  lobby_info-Succeeds : Succeeds (process w s pk_c_lobby_room_info)
  unfolding process send_room_list_to_one push_package
  lobby_info-Succeeds = (_, refl, sound)

  -- The server's own packets are passed over.
  ignored-Succeeds : (packet : Packet) → process w s packet ≡ ok w → Succeeds (process w s packet)
  ignored-Succeeds packet e = (w, e, sound)

  -- While the invariant holds and the user of the session is there, a packet that conforms to the
  -- protocol is processed without a fault, and the invariant holds afterwards.
  pub process-Succeeds : (packet : Packet) → Conforms w u packet → Succeeds (process w s packet)
  unfolding process
  process-Succeeds (pk_c_server_enter nickname) c =
      (_, server_enter_lem w s u here sound nickname, queued-IsSound _ _ (rename-IsSound nickname))
  process-Succeeds pk_c_server_exit c = exit_server-Succeeds
  process-Succeeds (pk_c_room_enter rid) (lobby, (room, found)) = (
    _,
    room_enter_lem w s u here sound rid room found,
    queued-IsSound _ _ (entered-IsSound w s u here sound rid room lobby found),
  )
  process-Succeeds pk_c_room_exit (rid, inside) = exit_room-Succeeds rid inside
  process-Succeeds (pk_c_broadcast text) c =
      (_, broadcast_lem w s u here sound text, queued-IsSound w _ sound)
  process-Succeeds (pk_c_multicast text) (rid, inside) =
      let (room, found, _) = sound.located s u rid here inside in
      (_, multicast_lem w s u here sound text rid room inside found, queued-IsSound w _ sound)
  process-Succeeds (pk_c_unicast recver text) c =
      let (found, e, _) = unicast_lem w s u here sound recver text in
      (_, e, queued-IsSound w _ sound)
  process-Succeeds (pk_c_room_create name) c =
      (_, room_create_lem w s u here sound name, queued-IsSound _ _ (add_room-IsSound name c))
  process-Succeeds pk_c_lobby_room_info c = lobby_info-Succeeds
  process-Succeeds packet c = (w, refl, sound)
