-- ===== src/IoData/Overrun.antt =====
-- Reads past an array: what is sent of a packet that nearly fills the stream, and a listing that
-- counts more numbers than were received.
use tcp_socket_chatting_serv.Base.{
  ℕ, zero, suc, ◌+◌, ◌*◌, ◌≤◌, ◌<◌, ◌≡◌, ◌∙◌, List, [], ◌∷◌, ◌++◌, length, length-fill, length-take,
  take, drop, fill, arith, leb, le→leb, lt→leb, leb→le, Bool-cases, false, inl, inr, if◌then◌else◌,
  ok, fault, out_of_range,
}
use tcp_socket_chatting_serv.Bytes.{from_le}
use tcp_socket_chatting_serv.Stream.{
  Stream, sock_buf_size, initialize, splice, check_write_bound, advance, read, read_int,
}
use tcp_socket_chatting_serv.Stream.Write.{Holds, IsBounded, length-splice}
use tcp_socket_chatting_serv.Packet.Types.{Packet}
use tcp_socket_chatting_serv.Packet.Wire.{encode, read_ids}
use tcp_socket_chatting_serv.Packet.Encoded.{wire, encode-Holds}
use tcp_socket_chatting_serv.Packet.Bounds.{encode-IsBounded}
use tcp_socket_chatting_serv.IoData.{set_data, sent, send_packet}
use tcp_socket_chatting_serv.IoData.RoundTrip.{send_packet_lem}

-- Of a packet that leaves fewer than four bytes of the stream free, the send reads past the buffer.
send_packet_overrun :
    (p : Packet)
    → sock_buf_size < (encode p initialize).offset + 4
    → send_packet p ≡ fault out_of_range
unfolding send_packet set_data sent
send_packet_overrun p full = rw (
  le→leb s.offset sock_buf_size b.within,
  lt→leb (s.offset + 4) (length (splice 0 (take s.offset s.stream) (fill sock_buf_size 0)))
      (omega (arith, whole)),
)
  where
    s : Stream
    s = encode p initialize

    b : IsBounded s
    b = encode-IsBounded p

    whole : length (splice 0 (take s.offset s.stream) (fill sock_buf_size 0)) ≡ sock_buf_size
    whole =
        length-splice 0 (take s.offset s.stream) (fill sock_buf_size 0) (
          omega (
            arith,
            b.within,
            b.size,
            length-take s.offset s.stream (omega (arith, b.within, b.size)),
            length-fill {A = ℕ} sock_buf_size 0,
          ))
        ∙ length-fill sock_buf_size 0

-- A packet whose bytes fit the stream is sent whole, with four zeros behind it, if these fit the
-- buffer too; if not, the send reads past the buffer.
pub send_packet_cases :
    (p : Packet)
    → length (wire p) ≤ sock_buf_size
    → send_packet p ≡ (
        if leb (length (wire p) + 4) sock_buf_size
        then ok (wire p ++ fill 4 0)
        else fault out_of_range)
send_packet_cases p fits = elim (Bool-cases (leb (length (wire p) + 4) sock_buf_size)) [
  | inl room ↦ rw room (send_packet_lem p (leb→le _ _ room))
  | inr full ↦ rw full (send_packet_overrun p (beyond full))
]
  where
    beyond :
        leb (length (wire p) + 4) sock_buf_size ≡ false
        → sock_buf_size < (encode p initialize).offset + 4
    beyond full =
        let h : Holds (encode p initialize) (wire p) = encode-Holds p fits in ground (arith, h.size)

-- Where the stream's offset leaves room for one more write and the read pointer is within the
-- array, a list of numbers that is longer than the rest of the array is read past the array's end.
pub read_ids_overrun :
    (n w id : ℕ) (ids : List ℕ) (s : Stream)
    → s.offset + w ≤ sock_buf_size
    → s.read_ptr ≤ sock_buf_size
    → sock_buf_size < s.read_ptr + n * w
    → read_ids n w id ids s ≡ fault out_of_range
unfolding read_ids read_int check_write_bound read advance
read_ids_overrun zero w id ids s room inside beyond = absurd (omega arith)
read_ids_overrun (suc n) w id ids s room inside beyond =
    elim (Bool-cases (leb (s.read_ptr + w) sock_buf_size)) [
      | inl here ↦
          rw (le→leb (s.offset + w) sock_buf_size room, here)
            (read_ids_overrun n w (from_le (take w (drop s.read_ptr s.stream)))
              (ids ++ from_le (take w (drop s.read_ptr s.stream)) ∷ []) (advance s w) room
              (leb→le _ _ here) (omega arith))
      | inr past ↦ rw (le→leb (s.offset + w) sock_buf_size room, past)
    ]
