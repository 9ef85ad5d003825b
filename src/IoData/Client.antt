-- ===== src/IoData/Client.antt =====
-- The packets of clients: what the session makes of any bytes behind their types.
use tcp_socket_chatting_serv.Base.{
  ℕ, ◌+◌, ◌-◌, ◌≤◌, ◌≡◌, refl, ◌∙◌, List, length, length-fill, length-take, length-drop, take, drop,
  fill, take-take_append, arith, le→leb, Result, ok,
}
use tcp_socket_chatting_serv.Bytes.{from_le}
use tcp_socket_chatting_serv.Stream.{
  Stream, sock_buf_size, splice, advance, read_int, check_write_bound, read,
}
use tcp_socket_chatting_serv.Stream.Write.{splice_front, length-splice}
use tcp_socket_chatting_serv.Packet.Types.{
  PacketType, Packet, type, c_server_enter, c_server_exit, c_room_enter, c_room_exit, c_broadcast,
  c_multicast, c_unicast, c_room_create, c_lobby_room_info, pk_c_server_enter, pk_c_room_enter,
  pk_c_broadcast, pk_c_multicast, pk_c_unicast, pk_c_room_create,
}
use tcp_socket_chatting_serv.Packet.Wire.{decode, read_text, read_cast, read_number}
use tcp_socket_chatting_serv.Packet.Factory.{
  get_packet, payload_size, produce_by_type, default_packet, type_of,
}
use tcp_socket_chatting_serv.IoData.{on_recv}
use tcp_socket_chatting_serv.IoData.Receive.{read_str_found, IsPadded, of_bytes-IsPadded}

-- The packets that a client is meant to send.
abbrev pub IsClient : PacketType → Type 0
IsClient c_server_enter = Unit {0}
IsClient c_server_exit = Unit {0}
IsClient c_room_enter = Unit {0}
IsClient c_room_exit = Unit {0}
IsClient c_broadcast = Unit {0}
IsClient c_multicast = Unit {0}
IsClient c_unicast = Unit {0}
IsClient c_room_create = Unit {0}
IsClient c_lobby_room_info = Unit {0}
IsClient t = ⊥

-- `f` reads a packet of type `t` from the stream `s`.
abbrev Makes : (Stream → Result (Packet × Stream)) → Stream → PacketType → Type 0
Makes f s t = (p : Packet) × (s' : Stream) × (f s ≡ ok (p, s')) × (type p ≡ t)

text-Makes :
    (pk : List ℕ → Packet) (t : PacketType) (s : Stream)
    → IsPadded s
    → ((v : List ℕ) → type (pk v) ≡ t)
    → Makes (read_text pk) s t
unfolding read_text
text-Makes pk t s h typed =
    let (v, s', e, _, _) =
      read_str_found s 1020 (h.zero_at 1020 (omega arith) (omega arith)) (omega (arith, h.first)) in
    (pk v, s', rw e, typed v)

cast-Makes :
    (pk : List ℕ → List ℕ → Packet) (t : PacketType) (s : Stream)
    → IsPadded s
    → ((v w : List ℕ) → type (pk v w) ≡ t)
    → Makes (read_cast pk) s t
unfolding read_cast
cast-Makes pk t s h typed =
    let (v, s', e, same, near) =
      read_str_found s 1020 (h.zero_at 1020 (omega arith) (omega arith)) (omega (arith, h.first)) in
    let (w, s'', e', _, _) =
      read_str_found s' 1022 (rw same (h.zero_at 1022 (omega arith) (omega arith))) (omega arith) in
    (pk v w, s'', rw e (rw e'), typed v w)

number-Makes :
    (pk : ℕ → Packet) (t : PacketType) (s : Stream)
    → IsPadded s
    → ((n : ℕ) → type (pk n) ≡ t)
    → Makes (read_number 2 0 pk) s t
unfolding read_number read_int check_write_bound read
number-Makes pk t s h typed = (
  pk (from_le (take 2 (drop s.read_ptr s.stream))),
  advance s 2,
  rw (
    le→leb (s.offset + 2) sock_buf_size (omega (arith, h.room)),
    le→leb (s.read_ptr + 2) sock_buf_size (omega (arith, h.first)),
  ),
  typed _,
)

decode-Makes :
    (junk : ℕ) (t : PacketType) (s : Stream)
    → IsClient t
    → IsPadded s
    → Makes (decode junk (default_packet junk t)) s t
unfolding decode default_packet type
decode-Makes junk c_server_enter s c h = text-Makes pk_c_server_enter c_server_enter s h (λ v. refl)
decode-Makes junk c_server_exit s c h = (_, s, refl, refl)
decode-Makes junk c_room_enter s c h = number-Makes pk_c_room_enter c_room_enter s h (λ n. refl)
decode-Makes junk c_room_exit s c h = (_, s, refl, refl)
decode-Makes junk c_broadcast s c h = text-Makes pk_c_broadcast c_broadcast s h (λ v. refl)
decode-Makes junk c_multicast s c h = text-Makes pk_c_multicast c_multicast s h (λ v. refl)
decode-Makes junk c_unicast s c h = cast-Makes pk_c_unicast c_unicast s h (λ v w. refl)
decode-Makes junk c_room_create s c h = text-Makes pk_c_room_create c_room_create s h (λ v. refl)
decode-Makes junk c_lobby_room_info s c h = (_, s, refl, refl)
decode-Makes junk t s c h = absurd c

-- Whatever bytes stand behind the type of a client's packet in the receive buffer, where from 4 to
-- 1024 bytes in all were received, the session makes a packet of that type of them.
pub on_recv-client :
    (junk : ℕ) (buffer : List ℕ) (size : ℕ)
    → 4 ≤ size
    → size ≤ sock_buf_size
    → size ≤ length buffer
    → IsClient (type_of (from_le (take 4 buffer)))
    → (p : Packet) × (on_recv junk buffer size ≡ ok p)
      × (type p ≡ type_of (from_le (take 4 buffer)))
unfolding on_recv get_packet produce_by_type
on_recv-client junk buffer size lo hi enough c =
    let (s, opened, padded) =
      of_bytes-IsPadded (drop 4 raw) (size - 4) (omega arith)
        (omega (arith, whole, length-drop 4 raw)) in
    let (p, s', made, typed) = decode-Makes junk _ s c padded in
    (p, rw (le→leb size sock_buf_size hi, wrapped, opened, front, made), typed)
  where
    raw : List ℕ
    raw = splice 0 (take size buffer) (fill sock_buf_size 0)

    whole : length raw ≡ sock_buf_size
    whole =
        length-splice 0 (take size buffer) (fill sock_buf_size 0)
          (omega (arith, length-take size buffer enough, length-fill {A = ℕ} sock_buf_size 0))
        ∙ length-fill sock_buf_size 0

    wrapped : payload_size size ≡ size - 4
    wrapped = omega arith

    front : take 4 raw ≡ take 4 buffer
    front = rw (splice_front (take size buffer)) (take-take_append 4 size buffer _ lo enough)
