-- ===== src/Server/Invariant/Exits.antt =====
-- A user who leaves a room, and one who leaves the server.
use tcp_socket_chatting_serv.Base.{
  ℕ, ◌≡◌, ap, inl, inr, none, some, ◌==◌, arith, Bool-cases, Option-cases, ◌⊎◌, ==_iff, ==_refl, ok,
}
use tcp_socket_chatting_serv.Containers.{set_erase, lookup, map_erase}
use tcp_socket_chatting_serv.Containers.Laws.{ne_of_test, All-map}
use tcp_socket_chatting_serv.Packet.Types.{pk_c_room_exit, pk_s_room_exit}
use tcp_socket_chatting_serv.Server.World.{
  close, delete_user, User, Room, World, put_user, user_exit,
}
use tcp_socket_chatting_serv.Server.Rooms.{remove_from_lobby, put_users, exit_room, push_into_lobby}
use tcp_socket_chatting_serv.Server.Users.{leave_place, remove_user}
use tcp_socket_chatting_serv.Server.Logic.{process, on_room_exit}
use tcp_socket_chatting_serv.Server.Cast.{
  cast_except_lem, Live, to_all, queued, deref-eq_ok, cast_to_lem,
}
use tcp_socket_chatting_serv.Server.Invariant.Handlers.{room_at_lem, members-Live, user_of_lem}
use tcp_socket_chatting_serv.Server.Invariant.{IsSound}
use tcp_socket_chatting_serv.Server.Invariant.Changes.{Inv-exit}

-- The world with the user at `s` out of a room.
abbrev pub left : World → ℕ → User → ℕ → World
left w s u rid = put_users (put_user w s (record u { curr_room = none })) rid (set_erase s)

-- The world without the user at `s`.
abbrev pub removed : World → ℕ → User → World
removed w s u = delete_user (record w { user_list = map_erase u.user_id w.user_list }) s

module _ (w : World) (s : ℕ) (u : User) (here : w.heap s ≡ some u) (sound : IsSound w) where
  -- While the invariant holds and the user of the session is there, leaving the room that the user
  -- is in, which exists, ends the membership and puts the user into the lobby; every member, the
  -- leaving one too, gets the user's number.
  pub room_exit_lem :
      (rid : ℕ) (room : Room)
      → u.curr_room ≡ some rid
      → lookup rid w.room_list ≡ some room
      → process w s pk_c_room_exit
        ≡ ok (
            push_into_lobby
              (left (queued w (to_all room.users (pk_s_room_exit u.user_id))) s u rid)
              s)
  unfolding process on_room_exit exit_room user_exit queued
  room_exit_lem rid room inside found = rw (
    user_of_lem w s u here sound,
    deref-eq_ok w s u here,
    inside,
    room_at_lem w rid room found,
    cast_to_lem w room.users (pk_s_room_exit u.user_id) (members-Live w sound rid room found),
    deref-eq_ok (queued w (to_all room.users (pk_s_room_exit u.user_id))) s u here,
  )

  pub left-IsSound : (rid : ℕ) → u.curr_room ≡ some rid → IsSound (left w s u rid)
  unfolding put_users put_user
  left-IsSound rid inside = Inv-exit w.heap w.user_list w.room_list s u here sound rid inside

  -- In a room, the number of a user tells whether the user is the one at `s`.
  told_apart :
      (q : ℕ)
      → Live w.heap q
      → (v : User) × (w.heap q ≡ some v) × ((v.user_id == u.user_id) ≡ (s == q))
  told_apart q (v, there) = (v, there, same)
    where
      same : (v.user_id == u.user_id) ≡ (s == q)
      same = elim (Bool-cases (s == q)) [
        | inl hit ↦
            let at_q : s ≡ q = (==_iff s q).0 hit in
            let both : v ≡ u = ground (arith, ap w.heap at_q) in rw (hit, both) (==_refl u.user_id)
        | inr miss ↦ elim (Bool-cases (v.user_id == u.user_id)) [
          | inl hit ↦
              let (mine, _) = sound.listed s u here in
              let (its, _) = sound.listed q v there in
              let numbers : v.user_id ≡ u.user_id = (==_iff v.user_id u.user_id).0 hit in
              absurd
                (ne_of_test s q miss (ground (arith, ap (λ (i : ℕ). lookup i w.user_list) numbers)))
          | inr other ↦ rw (miss, other)
        ]
      ]

  -- While the invariant holds and the user of the session is there, the removal of a user who is
  -- in no room takes the user out of the lobby, closes the socket, takes the number off the list
  -- and deletes the user, and queues no package.
  pub remove_user-lobby :
      u.curr_room ≡ none
      → remove_user w s ≡ ok (removed (close (remove_from_lobby w s) u.session) s u)
  unfolding remove_user leave_place close remove_from_lobby
  remove_user-lobby lobby = rw (deref-eq_ok w s u here, lobby)

  -- While the invariant holds and the user of the session is there, the removal of a user who is
  -- in a room, which exists, ends the membership, queues the user's number for the other members
  -- only, closes the socket, takes the number off the list and deletes the user.
  pub remove_user-room :
      (rid : ℕ) (room : Room)
      → u.curr_room ≡ some rid
      → lookup rid w.room_list ≡ some room
      → remove_user w s
        ≡ ok (
            removed
              (close
                (left
                  (queued w (to_all (set_erase s room.users) (pk_s_room_exit u.user_id)))
                  s
                  u
                  rid)
                u.session)
              s
              u)
  unfolding remove_user leave_place exit_room user_exit queued close put_users put_user
  remove_user-room rid room inside found = rw (
    deref-eq_ok w s u here,
    inside,
    deref-eq_ok w s u here,
    room_at_lem w rid room found,
    cast_except_lem w room.users s u.user_id (pk_s_room_exit u.user_id)
        (All-map _ _ room.users told_apart (members-Live w sound rid room found)),
    deref-eq_ok (queued w (to_all (set_erase s room.users) (pk_s_room_exit u.user_id))) s u here,
  )

  -- While the invariant holds and the user of the session is there, the removal closes the socket,
  -- takes the number off the list and deletes the user; a user in no room is taken out of the
  -- lobby, and no package is queued; for a user in a room, which exists, it ends the membership
  -- and queues the user's number for the other members only.
  pub remove_user_cases :
      ((u.curr_room ≡ none)
        × (remove_user w s ≡ ok (removed (close (remove_from_lobby w s) u.session) s u)))
      ⊎ ((rid : ℕ) × (room : Room) × (u.curr_room ≡ some rid)
          × (lookup rid w.room_list ≡ some room)
          × (remove_user w s
              ≡ ok (
                  removed
                    (close
                      (left
                        (queued w (to_all (set_erase s room.users) (pk_s_room_exit u.user_id)))
                        s
                        u
                        rid)
                      u.session)
                    s
                    u)))
  remove_user_cases = elim (Option-cases u.curr_room) [
    | inl lobby ↦ inl (lobby, remove_user-lobby lobby)
    | inr (rid, inside) ↦
        let (room, found, member) = sound.located s u rid here inside in
        inr (rid, room, inside, found, remove_user-room rid room inside found)
  ]
