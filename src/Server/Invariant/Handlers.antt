-- ===== src/Server/Invariant/Handlers.antt =====
-- Each packet of a client who keeps to the protocol: what its handler does to the world.
use tcp_socket_chatting_serv.Base.{
  ℕ, ◌≡◌, ap, inl, inr, List, [], ◌∷◌, ◌++◌, none, some, All, ◌==◌, Bool-cases, ==_iff, ok,
}
use tcp_socket_chatting_serv.Containers.{set_insert, lookup}
use tcp_socket_chatting_serv.Containers.Laws.{
  ne_of_test, All-map, All-lookup, All-set_insert, lookup-modify_self,
}
use tcp_socket_chatting_serv.Packet.Types.{
  Packet, pk_c_server_enter, pk_c_room_enter, pk_c_broadcast, pk_c_multicast, pk_c_room_create,
  pk_s_broadcast, pk_s_multicast, pk_s_server_enter_ok, pk_s_room_enter, pk_s_room_name,
}
use tcp_socket_chatting_serv.Server.World.{
  User, Room, World, SendPackage, update, put_user, push_package, user_enter,
}
use tcp_socket_chatting_serv.Server.Rooms.{
  put_users, room_at, room_cast, enter_room, get_room, send_room_list_to_one, broadcast, add_room,
  room_info,
}
use tcp_socket_chatting_serv.Server.Users.{get_user, session_at, get_session, send_accept_packet}
use tcp_socket_chatting_serv.Server.Logic.{
  user_of, process, on_server_enter, create_room, on_room_create, on_room_enter, on_multicast,
  on_broadcast,
}
use tcp_socket_chatting_serv.Server.Cast.{
  Live, package_to, to_all, to_rooms, queued, queued-queued, push_package-queued, deref-eq_ok,
  cast_to_lem, broadcast_in_lem,
}
use tcp_socket_chatting_serv.Server.Invariant.{Inside, IsSound, update_at, update_off}
use tcp_socket_chatting_serv.Server.Invariant.Changes.{with_users, Inv-enter}

pub room_at_lem :
    (w : World) (rid : ℕ) (room : Room)
    → lookup rid w.room_list ≡ some room
    → room_at w rid ≡ ok room
unfolding room_at
room_at_lem w rid room found = rw found

-- The members of a room are there, so that a cast in it reaches them all.
pub members-Live :
    (w : World)
    → IsSound w
    → (rid : ℕ) (room : Room) → lookup rid w.room_list ≡ some room
    → All (Live w.heap) room.users
members-Live w sound rid room found =
    All-map _ _ room.users (λ q i. (i.0, i.1))
      (All-lookup (λ r x. All (λ q. Inside w.heap r q) x.users) rid room w.room_list sound.members
        found)

pub room_cast_lem :
    (w : World)
    → IsSound w
    → (rid : ℕ) (room : Room) (packet : Packet) → lookup rid w.room_list ≡ some room
    → room_cast w rid packet ≡ ok (queued w (to_all room.users packet))
unfolding room_cast
room_cast_lem w sound rid room packet found =
    rw (room_at_lem w rid room found)
      (cast_to_lem w room.users packet (members-Live w sound rid room found))

pub put_user_at : (w : World) (p : ℕ) (u : User) → (put_user w p u).heap p ≡ some u
unfolding put_user
put_user_at w p u = update_at w.heap p (some u)

-- The world with the user at `s` in a room.
abbrev pub entered : World → ℕ → User → ℕ → World
entered w s u rid = put_users (put_user w s (record u { curr_room = some rid })) rid (set_insert s)

module _ (w : World) (s : ℕ) (u : User) (here : w.heap s ≡ some u) (sound : IsSound w) where
  pub user_of_lem : user_of w s ≡ ok (some s)
  unfolding user_of get_user
  user_of_lem =
      let (found, same) = sound.listed s u here in rw (deref-eq_ok w s u here, same, found)

  -- While the invariant holds and the user of the session is there, entering the server sets the
  -- user's name, and queues the user's number and then the list of rooms for the session.
  pub server_enter_lem :
      (nickname : List ℕ)
      → process w s (pk_c_server_enter nickname)
        ≡ ok (
            queued (put_user w s (record u { nickname = nickname })) (
              package_to s (pk_s_server_enter_ok u.session.user_id)
              ∷ package_to s (room_info w.room_list)
              ∷ []))
  unfolding process on_server_enter send_accept_packet send_room_list_to_one put_user queued
      push_package
  server_enter_lem nickname =
      rw
        (
          user_of_lem,
          deref-eq_ok w s u here,
          deref-eq_ok (put_user w s u') s u' (update_at w.heap s (some u')),
        )
        (ap ok (
          queued-queued (put_user w s u')
            (package_to s (pk_s_server_enter_ok u.session.user_id) ∷ [])
            (package_to s (room_info w.room_list) ∷ [])))
    where
      u' : User
      u' = record u { nickname = nickname }

  -- While the invariant holds and the user of the session is there, a multicast queues the
  -- sender's name and the text for every member of the room that the sender is in, which exists,
  -- and changes nothing else.
  pub multicast_lem :
      (text : List ℕ) (rid : ℕ) (room : Room)
      → u.curr_room ≡ some rid
      → lookup rid w.room_list ≡ some room
      → process w s (pk_c_multicast text)
        ≡ ok (queued w (to_all room.users (pk_s_multicast u.nickname text)))
  unfolding process on_multicast
  multicast_lem text rid room inside found =
      rw (user_of_lem, deref-eq_ok w s u here, inside) (room_cast_lem w sound rid room _ found)

  -- While the invariant holds and the user of the session is there, a broadcast queues the
  -- sender's name and the text for every member of every room, in the order of the map, and
  -- changes nothing else.
  pub broadcast_lem :
      (text : List ℕ)
      → process w s (pk_c_broadcast text)
        ≡ ok (queued w (to_rooms w.room_list (pk_s_broadcast u.nickname text)))
  unfolding process on_broadcast broadcast
  broadcast_lem text =
      rw (user_of_lem, deref-eq_ok w s u here)
        (broadcast_in_lem w w.room_list _ (
          All-map _ _ w.room_list (λ e m. All-map _ _ e.1.users (λ q i. (i.0, i.1)) m)
            sound.members))

  -- While the invariant holds and the user of the session is there, a request for a new room adds
  -- it under the next number, and queues the new list of rooms for the session.
  pub room_create_lem :
      (name : List ℕ)
      → process w s (pk_c_room_create name)
        ≡ ok (queued (add_room w name) (package_to s (room_info (add_room w name).room_list) ∷ []))
  unfolding process on_room_create create_room get_session get_user session_at add_room queued
      push_package send_room_list_to_one
  room_create_lem name =
      let (found, same) = sound.listed s u here in
      rw (deref-eq_ok w s u here, same, found, deref-eq_ok (add_room w name) s u here)

  pub entered-IsSound :
      (rid : ℕ) (room : Room)
      → u.curr_room ≡ none
      → lookup rid w.room_list ≡ some room
      → IsSound (entered w s u rid)
  unfolding put_users put_user
  entered-IsSound rid room lobby found =
      Inv-enter w.heap w.user_list w.room_list s u here sound rid room lobby found

  pub entered_room :
      (rid : ℕ) (room : Room)
      → lookup rid w.room_list ≡ some room
      → lookup rid (entered w s u rid).room_list ≡ some (with_users (set_insert s) room)
  unfolding put_users put_user
  entered_room rid room found =
      lookup-modify_self rid (with_users (set_insert s)) room w.room_list found

  entered-Live :
      (rid : ℕ) (room : Room)
      → lookup rid w.room_list ≡ some room
      → All (Live (entered w s u rid).heap) (set_insert s room.users)
  unfolding put_users put_user
  entered-Live rid room found =
      All-set_insert _ s room.users (u', update_at w.heap s (some u'))
        (All-map _ _ room.users (λ q l. stays q l) (members-Live w sound rid room found))
    where
      u' : User
      u' = record u { curr_room = some rid }

      stays : (q : ℕ) → Live w.heap q → Live (update w.heap s (some u')) q
      stays q (v, there) = elim (Bool-cases (q == s)) [
        | inl hit ↦ (u', rw ((==_iff q s).0 hit) (update_at w.heap s (some u')))
        | inr miss ↦ (v, rw (update_off w.heap s q (some u') (ne_of_test q s miss)) there)
      ]

  -- While the invariant holds and the user of the session is there, entering a room that exists
  -- makes the user a member of it, whatever room the user was in; every member, the new one too,
  -- gets the user's number and name, and the user gets the room's name.
  pub room_enter_lem :
      (rid : ℕ) (room : Room)
      → lookup rid w.room_list ≡ some room
      → process w s (pk_c_room_enter rid)
        ≡ ok (
            queued (entered w s u rid) (
              to_all (set_insert s room.users) (pk_s_room_enter u.user_id u.nickname)
              ++ package_to s (pk_s_room_name room.room_name) ∷ []))
  unfolding process on_room_enter enter_room get_room user_enter room_cast
  room_enter_lem rid room found = rw (
    user_of_lem,
    found,
    deref-eq_ok w s u here,
    deref-eq_ok (put_user w s u') s u' (put_user_at w s u'),
    room_at_lem (entered w s u rid) rid (with_users (set_insert s) room)
        (entered_room rid room found),
    cast_to_lem (entered w s u rid) (set_insert s room.users) (pk_s_room_enter u.user_id u.nickname)
        (entered-Live rid room found),
    room_at_lem (queued (entered w s u rid) told) rid (with_users (set_insert s) room)
        (unfold queued in entered_room rid room found),
    push_package-queued (queued (entered w s u rid) told)
        (package_to s (pk_s_room_name room.room_name)),
    queued-queued (entered w s u rid) told (package_to s (pk_s_room_name room.room_name) ∷ []),
  )
    where
      u' : User
      u' = record u { curr_room = some rid }

      told : List SendPackage
      told = to_all (set_insert s room.users) (pk_s_room_enter u.user_id u.nickname)
