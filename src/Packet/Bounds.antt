-- ===== src/Packet/Bounds.antt =====
-- `encode` against the end of the stream's array, for packets of any size.
use tcp_socket_chatting_serv.Base.{ℕ, List, [], ◌∷◌}
use tcp_socket_chatting_serv.Stream.{Stream, initialize, write_int, write_str}
use tcp_socket_chatting_serv.Stream.Write.{
  IsBounded, initialize-IsBounded, write_int-IsBounded, write_str-IsBounded,
}
use tcp_socket_chatting_serv.Packet.Types.{
  code, Packet, type, count16, pk_undefined, pk_c_server_enter, pk_c_room_enter, pk_c_broadcast,
  pk_c_multicast, pk_c_unicast, pk_c_room_create, pk_s_server_enter_ok, pk_s_lobby_room_info,
  pk_s_lobby_user_info, pk_s_lobby_enter, pk_s_room_enter, pk_s_room_exit, pk_s_room_name,
  pk_s_broadcast, pk_s_multicast, pk_s_unicast_ok,
}
use tcp_socket_chatting_serv.Packet.Wire.{write_type, write_ids, write_names, write_fields, encode}

ids-IsBounded : (w : ℕ) (ids : List ℕ) (s : Stream) → IsBounded s → IsBounded (write_ids w ids s)
unfolding write_ids
ids-IsBounded w [] s b = b
ids-IsBounded w (id ∷ ids) s b = ids-IsBounded w ids _ (write_int-IsBounded w id b)

names-IsBounded :
    (names : List (List ℕ)) (s : Stream) → IsBounded s → IsBounded (write_names names s)
unfolding write_names
names-IsBounded [] s b = b
names-IsBounded (name ∷ names) s b = names-IsBounded names _ (write_str-IsBounded name b)

two-IsBounded :
    (value text : List ℕ) {s : Stream}
    → IsBounded s
    → IsBounded (write_str text (write_str value s))
two-IsBounded value text b = write_str-IsBounded text (write_str-IsBounded value b)

user-IsBounded :
    (uid : ℕ) (name : List ℕ) {s : Stream}
    → IsBounded s
    → IsBounded (write_str name (write_int 4 uid s))
user-IsBounded uid name b = write_str-IsBounded name (write_int-IsBounded 4 uid b)

fields-IsBounded : (p : Packet) (s : Stream) → IsBounded s → IsBounded (write_fields p s)
unfolding write_fields
fields-IsBounded (pk_undefined t) s b = b
fields-IsBounded (pk_c_server_enter nickname) s b = write_str-IsBounded nickname b
fields-IsBounded (pk_c_room_enter rid) s b = write_int-IsBounded 2 rid b
fields-IsBounded (pk_c_broadcast text) s b = write_str-IsBounded text b
fields-IsBounded (pk_c_multicast text) s b = write_str-IsBounded text b
fields-IsBounded (pk_c_unicast recver text) s b = two-IsBounded recver text b
fields-IsBounded (pk_c_room_create name) s b = write_str-IsBounded name b
fields-IsBounded (pk_s_server_enter_ok pid) s b = write_int-IsBounded 4 pid b
fields-IsBounded (pk_s_lobby_room_info n ids names) s b =
    names-IsBounded names _ (ids-IsBounded 2 ids _ (write_int-IsBounded 2 (count16 names) b))
fields-IsBounded (pk_s_lobby_user_info rooms n ids names) s b =
    names-IsBounded names _ (
      ids-IsBounded 4 ids _ (write_int-IsBounded 2 (count16 names) (write_int-IsBounded 2 rooms b)))
fields-IsBounded (pk_s_lobby_enter uid nickname) s b = user-IsBounded uid nickname b
fields-IsBounded (pk_s_room_enter uid name) s b = user-IsBounded uid name b
fields-IsBounded (pk_s_room_exit uid) s b = write_int-IsBounded 4 uid b
fields-IsBounded (pk_s_room_name name) s b = write_str-IsBounded name b
fields-IsBounded (pk_s_broadcast nickname text) s b = two-IsBounded nickname text b
fields-IsBounded (pk_s_multicast nickname text) s b = two-IsBounded nickname text b
fields-IsBounded (pk_s_unicast_ok nickname text) s b = two-IsBounded nickname text b
fields-IsBounded p s b = b

-- Whatever a packet holds, `encode` keeps the stream's array at its size and the offset within it.
pub encode-IsBounded : (p : Packet) → IsBounded (encode p initialize)
unfolding encode write_type
encode-IsBounded p =
    fields-IsBounded p _ (write_int-IsBounded 4 (code (type p)) initialize-IsBounded)
