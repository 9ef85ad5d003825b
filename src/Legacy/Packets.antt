-- ===== src/Legacy/Packets.antt =====
-- ChattingServer_v1.0/ChattingServer/Packet.h and PacketInfo.h: the packets, and what is kept of one
-- while it waits.
use tcp_socket_chatting_serv.Base.{
  ℕ, Bool, false, List, [], ◌∷◌, ◌++◌, take, drop, ◌==◌, if◌then◌else◌, Result, ok, fault,
  out_of_range, ◌>>=◌,
}
use tcp_socket_chatting_serv.Bytes.{le_bytes, from_le}

-- `eAction`, the types that the server looks at.
abbrev pub server_enter : ℕ
server_enter = 11

abbrev pub server_exit : ℕ
server_exit = 12

abbrev pub room_enter : ℕ
room_enter = 21

abbrev pub room_exit : ℕ
room_exit = 22

abbrev pub chat_broadcast : ℕ
chat_broadcast = 31

abbrev pub chat_multicast : ℕ
chat_multicast = 32

abbrev pub chat_unicast : ℕ
chat_unicast = 33

abbrev pub server_message : ℕ
server_message = 51

-- `eMessage`.
abbrev pub nickname_already_exist : ℕ
nickname_already_exist = 1

abbrev pub nickname_created : ℕ
nickname_created = 2

abbrev pub nickname_not_found : ℕ
nickname_not_found = 3

pub data SendType : Type 0 where
  uninitialized multi uni broad : SendType

-- `packet_data` is the bytes from `pPacketData` to the end of the buffer that it points into.
pub record PacketInfo : Type 0 where
  pub client_index : ℕ
  pub data_size : ℕ
  pub send_type : SendType
  pub is_close : Bool
  pub packet_data : List ℕ

unfoldable pub set_packet : ℕ → ℕ → List ℕ → PacketInfo
set_packet index size bytes = record {
  client_index = index;
  data_size = size;
  send_type = uninitialized;
  is_close = false;
  packet_data = bytes;
}

-- The copy constructor.
unfoldable pub copied : PacketInfo → PacketInfo
copied p = record p { packet_data = take p.data_size p.packet_data }

-- The fields of the packed structures: `Type`, a name that starts at `place`, `RoomNo`.
unfoldable pub packet_type : List ℕ → ℕ
packet_type bytes = from_le (take 2 (drop 2 bytes))

-- A string up to its NUL; without one, `strlen` reads past the buffer.
unfoldable pub c_str : List ℕ → Result (List ℕ)
c_str [] = fault out_of_range
c_str (c ∷ cs) = let rest = c_str cs in if c == 0 then ok [] else (do s ← rest; ok (c ∷ s))

-- What `c_str` of a string is read as: the bytes up to the first NUL.
unfoldable pub until_nul : List ℕ → List ℕ
until_nul [] = []
until_nul (c ∷ cs) = let rest = until_nul cs in if c == 0 then [] else c ∷ rest

unfoldable pub name_at : ℕ → List ℕ → Result (List ℕ)
unfolding c_str
name_at place bytes = c_str (drop place bytes)

unfoldable pub room_no : List ℕ → ℕ
room_no bytes = from_le (take 4 (drop 36 bytes))

-- A `SERVER_MESSAGE_PACKET`, eight bytes.
unfoldable pub message_bytes : ℕ → List ℕ
message_bytes message = le_bytes 2 8 ++ (le_bytes 2 server_message ++ le_bytes 4 message)
