-- ===== src/IoData/Payload.antt =====
-- How `GetPacket` of ChattingServer_v1.1/NetworkLib/PacketFactory.h takes a received payload apart.
use tcp_socket_chatting_serv.Base.{
  ℕ, ◌+◌, ◌-◌, ◌^◌, ◌≤◌, ◌<◌, ◌≡◌, refl, ◌∙◌, List, ◌++◌, append_assoc, length, length-append,
  length-fill, length-take, take, drop, fill, take-append_length, take_past, arith, le→leb, ok,
}
use tcp_socket_chatting_serv.Bytes.{le_bytes, from_le-le_bytes}
use tcp_socket_chatting_serv.Stream.{Stream, sock_buf_size, splice, of_bytes, set}
use tcp_socket_chatting_serv.Stream.Write.{splice_front, length-splice}
use tcp_socket_chatting_serv.Stream.Read.{Reads}
use tcp_socket_chatting_serv.Packet.Types.{PacketType, Packet, code, type, counted}
use tcp_socket_chatting_serv.Packet.Wire.{decode}
use tcp_socket_chatting_serv.Packet.Encoded.{payload, wire}
use tcp_socket_chatting_serv.Packet.Sendable.{IsSendable}
use tcp_socket_chatting_serv.Packet.Decoded.{decode-Decodes}
use tcp_socket_chatting_serv.Packet.Factory.{
  get_packet, payload_size, produce_by_type, default_packet, type_of-code,
}

payload_size_lem : (n : ℕ) → n + 4 < 2 ^ 64 → payload_size (n + 4) ≡ n
unfolding payload_size
payload_size_lem n h = omega arith

-- A stream made of `size` bytes of `bs ++ zs` reads `bs` first.
of_bytes-Reads :
    (bs zs : List ℕ)
    → length bs + 8 ≤ sock_buf_size
    → 4 ≤ length zs
    → (s : Stream) × (of_bytes (bs ++ zs) (length bs + 4) ≡ ok s)
      × Reads s (bs ++ (take 4 zs ++ fill (sock_buf_size - length (bs ++ take 4 zs)) 0))
unfolding of_bytes set
of_bytes-Reads bs zs room zeros = (
  made,
  opened,
  record {
    size = length-splice 0 _ (fill sock_buf_size 0) taken ∙ length-fill sock_buf_size 0;
    rest = rw (take_past 4 bs zs) (splice_front (bs ++ take 4 zs) ∙ append_assoc bs (take 4 zs) _);
    room = omega arith;
  },
)
  where
    taken : 0 + length (take (length bs + 4) (bs ++ zs)) ≤ length {A = ℕ} (fill sock_buf_size 0)
    taken = omega (
      arith,
      length-append bs zs,
      length-take (length bs + 4) (bs ++ zs) (omega (arith, length-append bs zs)),
      length-fill {A = ℕ} sock_buf_size 0,
    )

    made : Stream
    made = record {
      offset = length bs + 4;
      read_ptr = 0;
      stream = splice 0 (take (length bs + 4) (bs ++ zs)) (fill sock_buf_size 0);
    }

    opened : of_bytes (bs ++ zs) (length bs + 4) ≡ ok made
    opened = rw (
      le→leb (length bs + 4) sock_buf_size (omega arith),
      le→leb (length bs + 4) (length (bs ++ zs)) (omega (arith, length-append bs zs)),
    )

wire_front : (p : Packet) (zs : List ℕ) → take 4 (wire p ++ zs) ≡ le_bytes 4 (code (type p))
unfolding wire le_bytes
wire_front p zs = refl

wire_back : (p : Packet) (zs : List ℕ) → drop 4 (wire p ++ zs) ≡ payload p ++ zs
unfolding wire le_bytes
wire_back p zs = refl

length-wire : (p : Packet) → length (wire p) ≡ length (payload p) + 4
unfolding wire le_bytes
length-wire p = omega arith

code-lt : (t : PacketType) → code t < 256 ^ 4
unfolding code
code-lt PacketType.undefined = omega arith
code-lt t = omega arith

-- What `decode` makes of a packet's payload with four zeros and more behind it.
abbrev pub DecodesTo : ℕ → Packet → Packet → Type 0
DecodesTo junk p q =
    (s : Stream) (rest : List ℕ)
    → Reads s (payload p ++ (fill 4 0 ++ rest))
    → (s' : Stream) × (decode junk (default_packet junk (type p)) s ≡ ok (q, s'))

pub get_packet-wire :
    (junk : ℕ) (p q : Packet) (zs : List ℕ)
    → DecodesTo junk p q
    → length (wire p) + 4 ≤ sock_buf_size
    → get_packet junk (wire p ++ (fill 4 0 ++ zs)) (length (wire p) + 4) ≡ ok q
unfolding get_packet produce_by_type fill
get_packet-wire junk p q zs good room =
    let (s, opened, reads) =
      of_bytes-Reads (payload p) (fill 4 0 ++ zs) (omega (arith, length-wire p)) (omega arith) in
    let (s', decoded) = good s _ reads in
    rw (
      payload_size_lem (length (wire p)) (omega arith),
      wire_front p (fill 4 0 ++ zs),
      wire_back p (fill 4 0 ++ zs),
      length-wire p,
      opened,
      from_le-le_bytes 4 (code (type p)) (code-lt (type p)),
      type_of-code (type p),
      decoded,
    )

-- A packet that came without more behind it: the buffer has zeros there, or whatever else.
of_bytes-whole :
    (bs zs : List ℕ)
    → length bs + 4 ≤ sock_buf_size
    → (s : Stream) × (of_bytes (bs ++ zs) (length bs) ≡ ok s)
      × Reads s (bs ++ fill (sock_buf_size - length bs) 0)
unfolding of_bytes set
of_bytes-whole bs zs room = (
  record {
    offset = length bs;
    read_ptr = 0;
    stream = splice 0 (take (length bs) (bs ++ zs)) (fill sock_buf_size 0);
  },
  rw (
    le→leb (length bs) sock_buf_size (omega arith),
    le→leb (length bs) (length (bs ++ zs)) (omega (arith, length-append bs zs)),
  ),
  record {
    size =
        length-splice 0 _ (fill sock_buf_size 0)
          (rw (take-append_length bs zs) (omega (arith, length-fill {A = ℕ} sock_buf_size 0)))
        ∙ length-fill sock_buf_size 0;
    rest = rw (take-append_length bs zs) (splice_front bs);
    room = omega arith;
  },
)

pub get_packet-whole :
    (junk : ℕ) (p : Packet) (zs : List ℕ)
    → IsSendable p
    → length (wire p) ≤ sock_buf_size
    → get_packet junk (wire p ++ zs) (length (wire p)) ≡ ok (counted p)
unfolding get_packet produce_by_type
get_packet-whole junk p zs good fits =
    let (s, opened, reads) = of_bytes-whole (payload p) zs (omega (arith, length-wire p)) in
    let (s', decoded, _) = decode-Decodes junk p good s _ reads in
    rw (
      wire_front p zs,
      wire_back p zs,
      length-wire p,
      payload_size_lem (length (payload p)) (omega (arith, length-wire p)),
      opened,
      from_le-le_bytes 4 (code (type p)) (code-lt (type p)),
      type_of-code (type p),
      decoded,
    )
