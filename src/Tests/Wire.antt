-- ===== src/Tests/Wire.antt =====
-- Packets written, sent and received.
use tcp_socket_chatting_serv.Base.{
  ℕ, ◌+◌, ◌≡◌, refl, List, [], ◌∷◌, ◌++◌, length, fill, arith, if◌then◌else◌, leb, ok, fault,
  invalid_parameter, out_of_range, ◌>>=◌,
}
use tcp_socket_chatting_serv.Bytes.{from_le, le_bytes}
use tcp_socket_chatting_serv.Stream.{sock_buf_size, initialize}
use tcp_socket_chatting_serv.Stream.Write.{Holds, IsBounded}
use tcp_socket_chatting_serv.Packet.Types.{
  Packet, type, code, pk_c_unicast, pk_s_room_enter, counted,
}
use tcp_socket_chatting_serv.Packet.Wire.{encode, read_ids}
use tcp_socket_chatting_serv.Packet.Encoded.{wire, payload, encode-Holds}
use tcp_socket_chatting_serv.Packet.Bounds.{encode-IsBounded}
use tcp_socket_chatting_serv.Packet.Factory.{type_of}
use tcp_socket_chatting_serv.IoData.{send_packet, on_recv}
use tcp_socket_chatting_serv.IoData.RoundTrip.{on_recv-send_packet, on_recv-unicast_empty}
use tcp_socket_chatting_serv.IoData.Receive.{on_recv_short}
use tcp_socket_chatting_serv.IoData.Client.{IsClient, on_recv-client}
use tcp_socket_chatting_serv.IoData.Overrun.{send_packet_cases, read_ids_overrun}

-- The news that the user `A`, with the number 7, enters a room.
abbrev news : Packet
news = pk_s_room_enter 7 (65 ∷ [])

wire-news : wire news ≡ 207 ∷ 0 ∷ 0 ∷ 0 ∷ 7 ∷ 0 ∷ 0 ∷ 0 ∷ 65 ∷ 0 ∷ []
unfolding wire payload type code le_bytes
wire-news = refl

length-news : length (wire news) ≡ 10
length-news = rw wire-news refl

on_recv-send_packet_example :
    (send_packet news >>= λ bs. on_recv 9 (bs ++ 5 ∷ []) (length bs)) ≡ ok (counted news)
on_recv-send_packet_example =
    on_recv-send_packet 9 news (5 ∷ []) (omega arith, ((omega arith, omega arith), tt))
      (omega (arith, length-news))

encode-Holds_example : Holds (encode news initialize) (wire news)
encode-Holds_example = encode-Holds news (omega (arith, length-news))

encode-IsBounded_example : IsBounded (encode news initialize)
encode-IsBounded_example = encode-IsBounded news

send_packet_cases_example : send_packet news ≡ (
    if leb (length (wire news) + 4) sock_buf_size
    then ok (wire news ++ fill 4 0)
    else fault out_of_range)
send_packet_cases_example = send_packet_cases news (omega (arith, length-news))

read_ids_overrun_example : read_ids 600 2 9 [] initialize ≡ fault out_of_range
unfolding initialize
read_ids_overrun_example =
    read_ids_overrun 600 2 9 [] initialize (omega arith) (omega arith) (omega arith)

on_recv_short_example : on_recv 9 (1 ∷ 2 ∷ 3 ∷ []) 3 ≡ fault invalid_parameter
on_recv_short_example = on_recv_short 9 (1 ∷ 2 ∷ 3 ∷ []) 3 (omega arith)

abbrev bytes : List ℕ
bytes = 110 ∷ 0 ∷ 0 ∷ 0 ∷ 7 ∷ []

room_enter_IsClient : IsClient (type_of (from_le (110 ∷ 0 ∷ 0 ∷ 0 ∷ [])))
unfolding type_of from_le
room_enter_IsClient = tt

on_recv-client_example :
    (p : Packet) × (on_recv 9 bytes 5 ≡ ok p) × (type p ≡ type_of (from_le (110 ∷ 0 ∷ 0 ∷ 0 ∷ [])))
on_recv-client_example =
    on_recv-client 9 bytes 5 (omega arith) (omega arith) (omega arith) room_enter_IsClient

empty_length : length (wire (pk_c_unicast [] (65 ∷ []))) ≡ 7
unfolding wire payload type code le_bytes
empty_length = refl

on_recv-unicast_empty_example :
    (send_packet (pk_c_unicast [] (65 ∷ [])) >>= λ bs. on_recv 9 (bs ++ []) (length bs))
    ≡ ok (pk_c_unicast (0 ∷ 65 ∷ []) (0 ∷ []))
on_recv-unicast_empty_example =
    on_recv-unicast_empty 9 (65 ∷ []) [] ((omega arith, omega arith), tt)
      (omega (arith, empty_length))
