-- ===== src/Tests/Handling.antt =====
-- Packets handled by the small server, one of each kind.
use tcp_socket_chatting_serv.Base.{◌≡◌, refl, [], ◌∷◌, ◌++◌, none, some, arith, ok, fault, dangling}
use tcp_socket_chatting_serv.Containers.{set_insert, set_erase, lookup, modify, map_erase}
use tcp_socket_chatting_serv.Packet.Types.{
  pk_c_room_enter, pk_c_multicast, pk_s_room_enter, pk_s_room_name, pk_s_unicast_no,
}
use tcp_socket_chatting_serv.Server.World.{
  World, close, put_user, update, deref, user_exit, is_connected, delete_user, push_package,
}
use tcp_socket_chatting_serv.Server.Rooms.{put_users, room_cast, exit_room, room_at, cast_except}
use tcp_socket_chatting_serv.Server.Users.{leave_place, remove_user}
use tcp_socket_chatting_serv.Server.Logic.{process}
use tcp_socket_chatting_serv.Server.Cast.{package_to, to_all, queued}
use tcp_socket_chatting_serv.Server.Hazards.{switch_then_removed}
use tcp_socket_chatting_serv.Server.Invariant.Handlers.{entered, room_enter_lem}
use tcp_socket_chatting_serv.Server.Invariant.Effect.{Effect, process-Effect}
use tcp_socket_chatting_serv.Server.Invariant.Protocol.{Succeeds, process-Succeeds}
use tcp_socket_chatting_serv.Tests.Small.{alice, bob, den, hall, small, small-IsSound}

pub den_found : lookup 1 small.room_list ≡ some den
unfolding lookup
den_found = refl

hall_found : lookup 2 small.room_list ≡ some hall
unfolding lookup
hall_found = refl

process-Succeeds_example : Succeeds (process small 100 (pk_c_multicast (72 ∷ [])))
process-Succeeds_example =
    process-Succeeds small 100 alice refl small-IsSound (pk_c_multicast (72 ∷ [])) (1, refl)

process-Effect_example :
    (w' : World) × (process small 200 (pk_c_room_enter 1) ≡ ok w')
    × Effect small 200 bob (pk_c_room_enter 1) w'
process-Effect_example =
    process-Effect small 200 bob refl small-IsSound (pk_c_room_enter 1) (den, den_found)

-- What the first user's entering the second room, from the first, leaves; and that server once the
-- user has left it.
abbrev switched : World
switched = queued (entered small 100 alice 2) (
    to_all (set_insert 100 []) (pk_s_room_enter 1 (65 ∷ []))
    ++ package_to 100 (pk_s_room_name (72 ∷ [])) ∷ [])

abbrev gone : World
gone = record switched {
  heap = update (update switched.heap 100 (some (record alice { curr_room = none }))) 100 none;
  user_list = (2, 200) ∷ [];
  room_list = (1, den) ∷ (2, hall) ∷ [];
  closed = 7 ∷ [];
}

enters_second : process small 100 (pk_c_room_enter 2) ≡ ok switched
enters_second = room_enter_lem small 100 alice refl small-IsSound 2 hall hall_found

remove_user-gone : remove_user switched 100 ≡ ok gone
unfolding remove_user deref leave_place exit_room room_at lookup cast_except user_exit put_user
    put_users modify set_erase set_insert close is_connected map_erase delete_user push_package
    queued update
remove_user-gone = refl

switch_then_removed_example : room_cast gone 1 pk_s_unicast_no ≡ fault dangling
switch_then_removed_example =
    switch_then_removed small switched gone 100 alice 1 2 den hall pk_s_unicast_no refl
      small-IsSound refl (omega arith) den_found hall_found enters_second remove_user-gone
