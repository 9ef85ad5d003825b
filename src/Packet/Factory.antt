-- ===== src/Packet/Factory.antt =====
-- ChattingServer_v1.1/NetworkLib/PacketFactory.h: a packet out of received bytes.
use tcp_socket_chatting_serv.Base.{
  ℕ, ◌+◌, ◌-◌, ◌≡◌, refl, ◌%◌, ◌^◌, List, [], ◌==◌, if◌then◌else◌, take, drop, Result, ok, ◌>>=◌,
}
use tcp_socket_chatting_serv.Bytes.{from_le}
use tcp_socket_chatting_serv.Stream.{of_bytes}
use tcp_socket_chatting_serv.Packet.Types.{
  PacketType, undefined, c_server_enter, c_server_exit, c_room_enter, c_room_exit, c_broadcast,
  c_multicast, c_unicast, c_room_create, c_lobby_room_info, s_server_enter_ok, s_server_enter_no,
  s_lobby_room_info, s_lobby_user_info, s_lobby_enter, s_lobby_exit, s_room_enter, s_room_exit,
  s_room_name, s_broadcast, s_multicast, s_unicast_ok, s_unicast_no, code, Packet, pk_undefined,
  pk_c_server_enter, pk_c_server_exit, pk_c_room_enter, pk_c_room_exit, pk_c_broadcast,
  pk_c_multicast, pk_c_unicast, pk_c_room_create, pk_c_lobby_room_info, pk_s_server_enter_ok,
  pk_s_server_enter_no, pk_s_lobby_room_info, pk_s_lobby_user_info, pk_s_lobby_enter,
  pk_s_lobby_exit, pk_s_room_enter, pk_s_room_exit, pk_s_room_name, pk_s_broadcast, pk_s_multicast,
  pk_s_unicast_ok, pk_s_unicast_no,
}
use tcp_socket_chatting_serv.Packet.Wire.{decode}

-- The default constructors. `junk` is what a member that no constructor sets holds.
unfoldable pub default_packet : ℕ → PacketType → Packet
default_packet junk undefined = pk_undefined 0
default_packet junk c_server_enter = pk_c_server_enter []
default_packet junk c_server_exit = pk_c_server_exit
default_packet junk c_room_enter = pk_c_room_enter 0
default_packet junk c_room_exit = pk_c_room_exit
default_packet junk c_broadcast = pk_c_broadcast []
default_packet junk c_multicast = pk_c_multicast []
default_packet junk c_unicast = pk_c_unicast [] []
default_packet junk c_room_create = pk_c_room_create []
default_packet junk c_lobby_room_info = pk_c_lobby_room_info
default_packet junk s_server_enter_ok = pk_s_server_enter_ok 0
default_packet junk s_server_enter_no = pk_s_server_enter_no
default_packet junk s_lobby_room_info = pk_s_lobby_room_info junk [] []
default_packet junk s_lobby_user_info = pk_s_lobby_user_info 0 0 [] []
default_packet junk s_lobby_enter = pk_s_lobby_enter 0 []
default_packet junk s_lobby_exit = pk_s_lobby_exit
default_packet junk s_room_enter = pk_s_room_enter 0 []
default_packet junk s_room_exit = pk_s_room_exit 0
default_packet junk s_room_name = pk_s_room_name []
default_packet junk s_broadcast = pk_s_broadcast [] []
default_packet junk s_multicast = pk_s_multicast [] []
default_packet junk s_unicast_ok = pk_s_unicast_ok [] []
default_packet junk s_unicast_no = pk_s_unicast_no

-- The labels of the `switch` in `ProduceByType`, and its default.
unfoldable pub type_of : ℕ → PacketType
type_of n =
    if n == 0
    then undefined
    else if n == 101
    then c_server_enter
    else if n == 102
    then c_server_exit
    else if n == 110
    then c_room_enter
    else if n == 111
    then c_room_exit
    else if n == 112
    then c_broadcast
    else if n == 113
    then c_multicast
    else if n == 114
    then c_unicast
    else if n == 115
    then c_room_create
    else if n == 116
    then c_lobby_room_info
    else if n == 201
    then s_server_enter_ok
    else if n == 202
    then s_server_enter_no
    else if n == 203
    then s_lobby_room_info
    else if n == 204
    then s_lobby_user_info
    else if n == 205
    then s_lobby_enter
    else if n == 206
    then s_lobby_exit
    else if n == 207
    then s_room_enter
    else if n == 208
    then s_room_exit
    else if n == 209
    then s_room_name
    else if n == 210
    then s_broadcast
    else if n == 211
    then s_multicast
    else if n == 212
    then s_unicast_ok
    else if n == 213
    then s_unicast_no
    else undefined

-- `ProduceByType`. A header is the bit pattern of an `int32_t`; a negative one has no label.
unfoldable pub produce_by_type : ℕ → ℕ → Packet
unfolding default_packet type_of
produce_by_type junk n = default_packet junk (type_of n)

-- `size - sizeof(packetType)`, of type `size_t`.
unfoldable pub payload_size : ℕ → ℕ
payload_size size = (size + 2 ^ 64 - 4) % 2 ^ 64

-- `GetPacket`, of the buffer `raw` into which `size` bytes were received.
unfoldable pub get_packet : ℕ → List ℕ → ℕ → Result Packet
unfolding produce_by_type payload_size of_bytes decode
get_packet junk raw size = do
  s ← of_bytes (drop 4 raw) (payload_size size)
  (packet, _) ← decode junk (produce_by_type junk (from_le (take 4 raw))) s
  ok packet

-- Every kind of packet is produced from its own number.
pub type_of-code : (t : PacketType) → type_of (code t) ≡ t
unfolding type_of code
type_of-code undefined = refl
type_of-code t = refl
