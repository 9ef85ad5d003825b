-- ===== src/Server/Invariant/Effect.antt =====
-- What the handlers of ChattingServer_v1.1/ChattingServer/LogicProcessFunc.cpp do with each packet,
-- against a description of it that
-- calls none of the code: it has the fields that change, with the sets and maps of Containers.
use mathlib.Core.Path.{fun_ext}
use tcp_socket_chatting_serv.Base.{
  ℕ, ◌+◌, ◌%◌, ◌^◌, ◌≡◌, ◌≢◌, refl, ap, ◌⊎◌, inl, inr, List, [], ◌∷◌, ◌++◌, map, Option, none, some,
  ok, length, ◌==◌, ==_iff, Bool-cases, if◌then◌else◌,
}
use tcp_socket_chatting_serv.Containers.{
  set_insert, set_erase, lookup, map_insert, map_erase, modify,
}
use tcp_socket_chatting_serv.Containers.Laws.{ne_of_test}
use tcp_socket_chatting_serv.Packet.Types.{
  Packet, pk_c_server_enter, pk_c_server_exit, pk_c_room_enter, pk_c_room_exit, pk_c_broadcast,
  pk_c_multicast, pk_c_unicast, pk_c_room_create, pk_c_lobby_room_info, pk_s_server_enter_ok,
  pk_s_room_enter, pk_s_room_exit, pk_s_room_name, pk_s_broadcast, pk_s_multicast,
  pk_s_lobby_room_info,
}
use tcp_socket_chatting_serv.Server.World.{
  close, is_connected, invalid_socket, Session, User, Room, World, put_user, delete_user, update,
  push_package,
}
use tcp_socket_chatting_serv.Server.Rooms.{
  remove_from_lobby, push_into_lobby, put_users, room_info, add_room, send_room_list_to_one,
}
use tcp_socket_chatting_serv.Server.Logic.{process, on_server_exit}
use tcp_socket_chatting_serv.Server.Cast.{package_to, to_all, to_rooms, queued}
use tcp_socket_chatting_serv.Server.Invariant.{Heap, IsSound}
use tcp_socket_chatting_serv.Server.Invariant.Handlers.{
  user_of_lem, server_enter_lem, multicast_lem, broadcast_lem, room_create_lem, room_enter_lem,
}
use tcp_socket_chatting_serv.Server.Invariant.Unicast.{Finds, answers, unicast_lem}
use tcp_socket_chatting_serv.Server.Invariant.Exits.{left, room_exit_lem, remove_user_cases}

-- The users once that at `s` is changed, or deleted.
abbrev with_user : Heap → ℕ → Option User → Heap
with_user heap s u q = if q == s then u else heap q

-- The rooms once the members of the room `rid` are changed.
abbrev with_members : List (ℕ × Room) → ℕ → (List ℕ → List ℕ) → List (ℕ × Room)
with_members rooms rid f = modify rid (λ r. record r { users = f r.users }) rooms

-- The packet that lists rooms: how many there are, at 16 bits, their numbers, and their names.
abbrev listed : List (ℕ × Room) → Packet
listed rooms =
    pk_s_lobby_room_info (length rooms % 2 ^ 16) (map (λ e. e.1.room_id) rooms)
      (map (λ e. e.1.room_name) rooms)

-- The rooms once one with no members is put under a number: where that is taken, they stay.
abbrev with_room : List (ℕ × Room) → ℕ → List ℕ → List (ℕ × Room)
with_room rooms rid name =
    map_insert rid (record { room_id = rid; room_name = name; users = [] }) rooms

-- The closed sockets once a session with this socket was closed: a valid socket is one more.
abbrev pub Closes : List ℕ → ℕ → List ℕ → Type 0
Closes before socket closed =
    ((socket ≡ invalid_socket) × (closed ≡ before))
    ⊎ ((socket ≢ invalid_socket) × (closed ≡ before ++ socket ∷ []))

-- The world once the user at `s` has left the server: from the lobby, or from a room, whose other
-- members are told.
abbrev pub Leaves : World → ℕ → User → World → Type 0
Leaves w s u w' =
    (closed : List ℕ) × Closes w.closed u.session.socket closed
    × (((u.curr_room ≡ none)
          × (w' ≡ record w {
            heap = with_user w.heap s none;
            user_list = map_erase u.user_id w.user_list;
            user_in_lobby = set_erase s w.user_in_lobby;
            closed = closed;
          }))
        ⊎ ((rid : ℕ) × (room : Room) × (u.curr_room ≡ some rid)
            × (lookup rid w.room_list ≡ some room)
            × (w' ≡ record w {
              heap = with_user w.heap s none;
              user_list = map_erase u.user_id w.user_list;
              room_list = with_members w.room_list rid (set_erase s);
              packages = w.packages ++ to_all (set_erase s room.users) (pk_s_room_exit u.user_id);
              closed = closed;
            })))

-- The world after a packet from the user `u` at `s`.
unfoldable pub Effect : World → ℕ → User → Packet → World → Type 0
Effect w s u (pk_c_server_enter nickname) w' = w' ≡ record w {
  heap = with_user w.heap s (some (record u { nickname = nickname }));
  packages =
      w.packages
      ++ package_to s (pk_s_server_enter_ok u.session.user_id)
        ∷ package_to s (listed w.room_list)
        ∷ [];
}
Effect w s u pk_c_server_exit w' = Leaves w s u w'
Effect w s u (pk_c_room_enter rid) w' =
    (room : Room) × (lookup rid w.room_list ≡ some room)
    × (w' ≡ record w {
      heap = with_user w.heap s (some (record u { curr_room = some rid }));
      room_list = with_members w.room_list rid (set_insert s);
      packages =
          w.packages
          ++ (to_all (set_insert s room.users) (pk_s_room_enter u.user_id u.nickname)
              ++ package_to s (pk_s_room_name room.room_name) ∷ []);
    })
Effect w s u pk_c_room_exit w' =
    (rid : ℕ) × (room : Room) × (u.curr_room ≡ some rid)
    × (lookup rid w.room_list ≡ some room)
    × (w' ≡ record w {
      heap = with_user w.heap s (some (record u { curr_room = none }));
      room_list = with_members w.room_list rid (set_erase s);
      user_in_lobby = set_insert s w.user_in_lobby;
      packages = w.packages ++ to_all room.users (pk_s_room_exit u.user_id);
    })
Effect w s u (pk_c_broadcast text) w' =
    w' ≡ record w { packages = w.packages ++ to_rooms w.room_list (pk_s_broadcast u.nickname text) }
Effect w s u (pk_c_multicast text) w' =
    (rid : ℕ) × (room : Room) × (u.curr_room ≡ some rid)
    × (lookup rid w.room_list ≡ some room)
    × (w'
        ≡ record w { packages = w.packages ++ to_all room.users (pk_s_multicast u.nickname text) })
Effect w s u (pk_c_unicast recver text) w' =
    (found : Option ℕ) × Finds w.heap w.user_list recver found
    × (w' ≡ record w { packages = w.packages ++ answers s u.nickname text found })
Effect w s u (pk_c_room_create name) w' = w' ≡ record w {
  room_list = with_room w.room_list w.room_id name;
  room_id = (w.room_id + 1) % 2 ^ 16;
  packages = w.packages ++ package_to s (listed (with_room w.room_list w.room_id name)) ∷ [];
}
Effect w s u pk_c_lobby_room_info w' =
    w' ≡ record w { packages = w.packages ++ package_to s (listed w.room_list) ∷ [] }
Effect w s u packet w' = w' ≡ w

-- What a packet needs: a room to be entered exists, and a room is left and spoken in by its members.
abbrev pub Allowed : World → User → Packet → Type 0
Allowed w u (pk_c_room_enter rid) = (room : Room) × (lookup rid w.room_list ≡ some room)
Allowed w u pk_c_room_exit = (rid : ℕ) × (u.curr_room ≡ some rid)
Allowed w u (pk_c_multicast text) = (rid : ℕ) × (u.curr_room ≡ some rid)
Allowed w u packet = Unit {0}

closes_lem : (w : World) (s : Session) → Closes w.closed s.socket (close w s).closed
unfolding close is_connected
closes_lem w s = elim (Bool-cases (s.socket == invalid_socket)) [
  | inl hit ↦ inl ((==_iff s.socket invalid_socket).0 hit, rw hit refl)
  | inr miss ↦ inr (ne_of_test s.socket invalid_socket miss, rw miss refl)
]

with_user-with_user :
    (heap : Heap) (s : ℕ) (x y : Option User)
    → with_user (with_user heap s x) s y ≡ with_user heap s y
with_user-with_user heap s x y = fun_ext (λ q. twice q)
  where
    twice : (q : ℕ) → with_user (with_user heap s x) s y q ≡ with_user heap s y q
    twice q = elim (Bool-cases (q == s)) [ inl hit ↦ rw hit refl | inr miss ↦ rw miss refl ]

module _ (w : World) (s : ℕ) (u : User) (here : w.heap s ≡ some u) (sound : IsSound w) where
  leaves_lem : (w' : World) × (process w s pk_c_server_exit ≡ ok w') × Leaves w s u w'
  unfolding process on_server_exit close remove_from_lobby put_user put_users delete_user update
      queued
  leaves_lem = rw (user_of_lem w s u here sound) (elim (remove_user_cases w s u here sound) [
    | inl (lobby, e) ↦ (_, e, (_, closes_lem w u.session, inl (lobby, refl)))
    | inr (rid, room, inside, found, e) ↦ (
      _,
      e,
      (
        _,
        closes_lem w u.session,
        inr (
          rid,
          room,
          inside,
          found,
          ap
              (λ (h : Heap).
                record (left (queued w (to_all (set_erase s room.users) (pk_s_room_exit u.user_id)))
                  s u rid) {
                    heap = h;
                    user_list = map_erase u.user_id w.user_list;
                    closed = (close w u.session).closed;
                  })
              (with_user-with_user w.heap s _ none),
        ),
      ),
    )
  ])

  -- While the invariant holds and the user of the session is there, every packet is processed
  -- without a fault and has the effect that is described for it, where a room to be entered exists
  -- and the user is in a room that is to be left or spoken in; and all else stays. Entering the
  -- server renames the user, and queues the user's number and the list of rooms; leaving it
  -- deletes the user and takes the number off the list, closes the socket if that is valid, and
  -- takes the user out of the lobby or of the room, whose other members are told; a room gains or
  -- loses the member and all members are told; leaving a room also leads to the lobby; the casts
  -- go to the room, to all rooms, and to the sender and a user of the name, if there is one; a
  -- request for a new room puts it under the next number if that is free, counts the number up at
  -- 16 bits, and queues the list of rooms; a packet of the server changes nothing.
  pub process-Effect :
      (packet : Packet)
      → Allowed w u packet
      → (w' : World) × (process w s packet ≡ ok w') × Effect w s u packet w'
  unfolding process Effect send_room_list_to_one push_package queued put_user put_users update
      push_into_lobby room_info add_room
  process-Effect (pk_c_server_enter nickname) a =
      (_, server_enter_lem w s u here sound nickname, refl)
  process-Effect pk_c_server_exit a = leaves_lem
  process-Effect (pk_c_room_enter rid) (room, found) =
      (_, room_enter_lem w s u here sound rid room found, (room, found, refl))
  process-Effect pk_c_room_exit (rid, inside) =
      let (room, found, _) = sound.located s u rid here inside in
      (_, room_exit_lem w s u here sound rid room inside found, (rid, room, inside, found, refl))
  process-Effect (pk_c_broadcast text) a = (_, broadcast_lem w s u here sound text, refl)
  process-Effect (pk_c_multicast text) (rid, inside) =
      let (room, found, _) = sound.located s u rid here inside in
      (
        _,
        multicast_lem w s u here sound text rid room inside found,
        (rid, room, inside, found, refl),
      )
  process-Effect (pk_c_unicast recver text) a =
      let (found, e, finds) = unicast_lem w s u here sound recver text in
      (_, e, (found, finds, refl))
  process-Effect (pk_c_room_create name) a = (_, room_create_lem w s u here sound name, refl)
  process-Effect pk_c_lobby_room_info a = (_, refl, refl)
  process-Effect packet a = (w, refl, refl)
