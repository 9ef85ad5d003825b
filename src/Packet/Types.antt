-- ===== src/Packet/Types.antt =====
-- ChattingServer_v1.1/NetworkLib/PacketType.h, ClientPacket.h, ServerPacket.h: the kinds of packet
-- with their numbers, and the packets with their fields. A string is the list of its bytes.
use tcp_socket_chatting_serv.Base.{ℕ, List, length, ◌%◌, ◌^◌}

-- `enum PacketType`, with `E_PK_` left off.
pub data PacketType : Type 0 where
  undefined : PacketType
  c_server_enter c_server_exit c_room_enter c_room_exit : PacketType
  c_broadcast c_multicast c_unicast c_room_create c_lobby_room_info : PacketType
  s_server_enter_ok s_server_enter_no s_lobby_room_info s_lobby_user_info : PacketType
  s_lobby_enter s_lobby_exit s_room_enter s_room_exit s_room_name : PacketType
  s_broadcast s_multicast s_unicast_ok s_unicast_no : PacketType

-- The number of an enumerator. One with no initialiser follows the one before it.
unfoldable pub code : PacketType → ℕ
code undefined = 0
code c_server_enter = 101
code c_server_exit = 102
code c_room_enter = 110
code c_room_exit = 111
code c_broadcast = 112
code c_multicast = 113
code c_unicast = 114
code c_room_create = 115
code c_lobby_room_info = 116
code s_server_enter_ok = 201
code s_server_enter_no = 202
code s_lobby_room_info = 203
code s_lobby_user_info = 204
code s_lobby_enter = 205
code s_lobby_exit = 206
code s_room_enter = 207
code s_room_exit = 208
code s_room_name = 209
code s_broadcast = 210
code s_multicast = 211
code s_unicast_ok = 212
code s_unicast_no = 213

-- The classes derived from `Packet`, with the fields in the order in which `encode` writes them.
pub data Packet : Type 0 where
  pk_undefined : (type_ : ℕ) → Packet
  pk_c_server_enter : (nickname : List ℕ) → Packet
  pk_c_server_exit : Packet
  pk_c_room_enter : (rid : ℕ) → Packet
  pk_c_room_exit : Packet
  pk_c_broadcast pk_c_multicast : (text : List ℕ) → Packet
  pk_c_unicast : (recver text : List ℕ) → Packet
  pk_c_room_create : (room_name : List ℕ) → Packet
  pk_c_lobby_room_info : Packet
  pk_s_server_enter_ok : (pid : ℕ) → Packet
  pk_s_server_enter_no : Packet
  pk_s_lobby_room_info : (room_count : ℕ) (room_id : List ℕ) (room_name : List (List ℕ)) → Packet
  pk_s_lobby_user_info : (room_count user_count : ℕ) (ids : List ℕ) (names : List (List ℕ)) → Packet
  pk_s_lobby_enter : (uid : ℕ) (nickname : List ℕ) → Packet
  pk_s_lobby_exit : Packet
  pk_s_room_enter : (uid : ℕ) (name : List ℕ) → Packet
  pk_s_room_exit : (uid : ℕ) → Packet
  pk_s_room_name : (room_name : List ℕ) → Packet
  pk_s_broadcast pk_s_multicast pk_s_unicast_ok : (nickname text : List ℕ) → Packet
  pk_s_unicast_no : Packet

-- The virtual function `type`.
unfoldable pub type : Packet → PacketType
type (pk_undefined t) = undefined
type (pk_c_server_enter nickname) = c_server_enter
type pk_c_server_exit = c_server_exit
type (pk_c_room_enter rid) = c_room_enter
type pk_c_room_exit = c_room_exit
type (pk_c_broadcast text) = c_broadcast
type (pk_c_multicast text) = c_multicast
type (pk_c_unicast recver text) = c_unicast
type (pk_c_room_create name) = c_room_create
type pk_c_lobby_room_info = c_lobby_room_info
type (pk_s_server_enter_ok pid) = s_server_enter_ok
type pk_s_server_enter_no = s_server_enter_no
type (pk_s_lobby_room_info n ids names) = s_lobby_room_info
type (pk_s_lobby_user_info rooms n ids names) = s_lobby_user_info
type (pk_s_lobby_enter uid nickname) = s_lobby_enter
type pk_s_lobby_exit = s_lobby_exit
type (pk_s_room_enter uid name) = s_room_enter
type (pk_s_room_exit uid) = s_room_exit
type (pk_s_room_name name) = s_room_name
type (pk_s_broadcast nickname text) = s_broadcast
type (pk_s_multicast nickname text) = s_multicast
type (pk_s_unicast_ok nickname text) = s_unicast_ok
type pk_s_unicast_no = s_unicast_no

-- `static_cast<uint16_t>` of a vector's size.
unfoldable pub count16 {ℓ} : {A : Type ℓ} → List A → ℕ
count16 xs = length xs % 2 ^ 16

-- The packet object once `encode` has set its count of names.
unfoldable pub counted : Packet → Packet
unfolding count16
counted (pk_s_lobby_room_info n ids names) = pk_s_lobby_room_info (count16 names) ids names
counted (pk_s_lobby_user_info rooms n ids names) =
    pk_s_lobby_user_info rooms (count16 names) ids names
counted p = p
