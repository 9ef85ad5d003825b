-- ===== src/IoData/RoundTrip.antt =====
-- What the session's `OnRecv` makes of the bytes that a peer's `SendPacket` sends.
use tcp_socket_chatting_serv.Base.{
  ℕ, ◌+◌, ◌-◌, ◌≤◌, ◌≡◌, ap, ◌∙◌, List, [], ◌∷◌, ◌++◌, append_assoc, All, length, length-append,
  length-fill, take, fill, take-append_length, take_past, take-fill, arith, le→leb, ok, ◌>>=◌,
}
use tcp_socket_chatting_serv.Stream.{Stream, sock_buf_size, splice, advance}
use tcp_socket_chatting_serv.Stream.Write.{Holds, splice_front}
use tcp_socket_chatting_serv.Stream.Read.{IsChar, read_str-Reads}
use tcp_socket_chatting_serv.Packet.Types.{Packet, pk_c_unicast, type, counted}
use tcp_socket_chatting_serv.Packet.Wire.{decode, read_cast}
use tcp_socket_chatting_serv.Packet.Encoded.{payload, wire, encode-Holds}
use tcp_socket_chatting_serv.Packet.Sendable.{IsSendable}
use tcp_socket_chatting_serv.Packet.Decoded.{decode-Decodes}
use tcp_socket_chatting_serv.Packet.Factory.{default_packet}
use tcp_socket_chatting_serv.IoData.Payload.{DecodesTo, get_packet-wire}
use tcp_socket_chatting_serv.IoData.{set_data, sent, send_packet, on_recv}

set_data-Holds :
    {s : Stream} (bs : List ℕ)
    → Holds s bs
    → set_data s
      ≡ ok (record { buf = bs ++ fill (sock_buf_size - length bs) 0; len = length bs + 4 })
unfolding set_data
set_data-Holds bs h = rw (
  h.size,
  h.bytes,
  le→leb (length bs) sock_buf_size h.fits,
  take-append_length bs (fill (sock_buf_size - length bs) 0),
  splice_front bs,
)

-- A packet that leaves room for four bytes is handed to the socket with four zeros behind it.
pub send_packet_lem :
    (p : Packet) → length (wire p) + 4 ≤ sock_buf_size → send_packet p ≡ ok (wire p ++ fill 4 0)
unfolding send_packet sent
send_packet_lem p room =
    rw (set_data-Holds (wire p) (encode-Holds p (omega arith)), le→leb _ _ fits)
      (ap ok (take_past 4 (wire p) _ ∙ ap (◌++◌ (wire p)) (take-fill 4 _ 0 (omega arith))))
  where
    fits : length (wire p) + 4 ≤ length (wire p ++ fill (sock_buf_size - length (wire p)) 0)
    fits = omega (
      arith,
      length-append (wire p) (fill (sock_buf_size - length (wire p)) 0),
      length-fill {A = ℕ} (sock_buf_size - length (wire p)) 0,
    )

-- A packet is received as its payload decodes.
on_recv-sent :
    (junk : ℕ) (p q : Packet) (tail : List ℕ)
    → DecodesTo junk p q
    → length (wire p) + 4 ≤ sock_buf_size
    → (send_packet p >>= λ bs. on_recv junk (bs ++ tail) (length bs)) ≡ ok q
unfolding on_recv fill
on_recv-sent junk p q tail good room =
    rw
      (
        send_packet_lem p room,
        length-append (wire p) (fill 4 0),
        length-fill {A = ℕ} 4 0,
        le→leb (length (wire p) + 4) sock_buf_size room,
        copied,
      )
      (get_packet-wire junk p q zeros good room)
  where
    front : take (length (wire p) + 4) ((wire p ++ fill 4 0) ++ tail) ≡ wire p ++ fill 4 0
    front = rw append_assoc (take_past 4 (wire p) (fill 4 0 ++ tail))

    zeros : List ℕ
    zeros = fill (sock_buf_size - length (wire p ++ fill 4 0)) 0

    copied :
        splice 0 (take (length (wire p) + 4) ((wire p ++ fill 4 0) ++ tail)) (fill sock_buf_size 0)
        ≡ wire p ++ (fill 4 0 ++ zeros)
    copied = rw front (splice_front (wire p ++ fill 4 0) ∙ append_assoc (wire p) (fill 4 0) zeros)

-- A packet whose fields survive the wire, and that leaves four bytes of the stream free, is sent
-- as bytes that the session at the other end, given these bytes at the front of its buffer, makes
-- the same packet of, with the count of names that `encode` sets.
pub on_recv-send_packet :
    (junk : ℕ) (p : Packet) (tail : List ℕ)
    → IsSendable p
    → length (wire p) + 4 ≤ sock_buf_size
    → (send_packet p >>= λ bs. on_recv junk (bs ++ tail) (length bs)) ≡ ok (counted p)
on_recv-send_packet junk p tail good room =
    on_recv-sent junk p (counted p) tail
      (λ s rest h. let (s', e, _) = decode-Decodes junk p good s _ h in (s', e)) room

-- A unicast to the empty name, whose text has no NUL, and that leaves four bytes of the stream
-- free, is received as one to the name of a NUL and the text, and with a NUL for its text.
pub on_recv-unicast_empty :
    (junk : ℕ) (text tail : List ℕ)
    → All IsChar text
    → length (wire (pk_c_unicast [] text)) + 4 ≤ sock_buf_size
    → (send_packet (pk_c_unicast [] text) >>= λ bs. on_recv junk (bs ++ tail) (length bs))
      ≡ ok (pk_c_unicast (0 ∷ text) (0 ∷ []))
unfolding decode default_packet type payload read_cast fill
on_recv-unicast_empty junk text tail chars room =
    on_recv-sent junk (pk_c_unicast [] text) (pk_c_unicast (0 ∷ text) (0 ∷ [])) tail
      (λ s rest h.
        let (e, h') =
          read_str-Reads 0 text (0 ∷ 0 ∷ 0 ∷ 0 ∷ rest) chars
            (rw (append_assoc text (0 ∷ []) (0 ∷ 0 ∷ 0 ∷ 0 ∷ rest)) at h) in
        let (e', _) = read_str-Reads 0 [] (0 ∷ 0 ∷ rest) tt h' in
        (advance (advance s (length text + 2)) 2, rw e (rw e')))
      room
