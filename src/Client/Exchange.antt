-- ===== src/Client/Exchange.antt =====
-- What the client's SendThread and RecvThread (ChattingServer_v1.1/ChattingClient/Client.cpp) exchange
-- with the server's sessions.
use tcp_socket_chatting_serv.Base.{
  ℕ, ◌+◌, ◌≤◌, ◌≡◌, sym, ap, ◌∙◌, Bool, true, List, [], ◌∷◌, ◌++◌, length, length-append,
  length-fill, take-append_length, fill, if◌then◌else◌, arith, le→leb, ok, ◌>>=◌,
}
use tcp_socket_chatting_serv.Stream.{sock_buf_size, initialize, splice}
use tcp_socket_chatting_serv.Stream.Write.{Holds, splice_front}
use tcp_socket_chatting_serv.Packet.Types.{Packet, counted}
use tcp_socket_chatting_serv.Packet.Wire.{encode}
use tcp_socket_chatting_serv.Packet.Encoded.{wire, encode-Holds}
use tcp_socket_chatting_serv.Packet.Sendable.{IsSendable}
use tcp_socket_chatting_serv.Packet.Factory.{get_packet}
use tcp_socket_chatting_serv.IoData.{send_packet, on_recv}
use tcp_socket_chatting_serv.IoData.Payload.{get_packet-whole}
use tcp_socket_chatting_serv.IoData.RoundTrip.{send_packet_lem, on_recv-send_packet}
use tcp_socket_chatting_serv.Client.State.{Client, recv_process}
use tcp_socket_chatting_serv.Client.Threads.{client_bytes, recv_round, logic_front, logic_round}

-- The client sends the packet's bytes alone.
pub client_bytes_lem : (p : Packet) → length (wire p) ≤ sock_buf_size → client_bytes p ≡ wire p
unfolding client_bytes
client_bytes_lem p fits =
    let h : Holds (encode p initialize) (wire p) = encode-Holds p fits in
    rw (h.size, h.bytes) (take-append_length (wire p) _)

-- A packet whose fields survive the wire, and that fits the stream, is sent by the client as bytes
-- that the session, given these at the front of its buffer, makes the same packet of, with the
-- count of names that `encode` sets.
pub on_recv-client_bytes :
    (junk : ℕ) (p : Packet) (tail : List ℕ)
    → IsSendable p
    → length (wire p) ≤ sock_buf_size
    → on_recv junk (client_bytes p ++ tail) (length (client_bytes p)) ≡ ok (counted p)
unfolding on_recv
on_recv-client_bytes junk p tail good fits =
    rw
      (
        client_bytes_lem p fits,
        le→leb (length (wire p)) sock_buf_size fits,
        take-append_length (wire p) tail,
        splice_front (wire p),
      )
      (get_packet-whole junk p _ good fits)

on_recv_opens :
    (junk : ℕ) (bytes : List ℕ)
    → length bytes ≤ sock_buf_size
    → on_recv junk (bytes ++ []) (length bytes)
      ≡ get_packet junk (splice 0 bytes (fill sock_buf_size 0)) (length bytes)
unfolding on_recv
on_recv_opens junk bytes fits =
    rw (le→leb (length bytes) sock_buf_size fits, take-append_length bytes [])

-- A round of the client's receiving thread on what a session sent.
recv_round-sent :
    (junk : ℕ) (c : Client) (p : Packet)
    → IsSendable p
    → length (wire p) + 4 ≤ sock_buf_size
    → c.is_worker_run ≡ true
    → recv_round junk c (wire p ++ fill 4 0)
      ≡ ok (record c { recv_queue = c.recv_queue ++ counted p ∷ [] })
unfolding recv_round
recv_round-sent junk c p good room running =
    ap
      (λ (b : Bool).
        if b
        then (do
          packet ← get_packet junk (splice 0 bytes (fill sock_buf_size 0)) (length bytes)
          ok (record c { recv_queue = c.recv_queue ++ packet ∷ [] }))
        else ok c)
      running
    ∙ ap (λ r. r >>= (λ packet. ok (record c { recv_queue = c.recv_queue ++ packet ∷ [] }))) got
  where
    bytes : List ℕ
    bytes = wire p ++ fill 4 0

    size : length bytes ≡ length (wire p) + 4
    size = length-append (wire p) (fill 4 0) ∙ ap (◌+◌ (length (wire p))) (length-fill {A = ℕ} 4 0)

    on_recv_got : on_recv junk (bytes ++ []) (length bytes) ≡ ok (counted p)
    on_recv_got =
        sym (ap (λ r. r >>= (λ bs. on_recv junk (bs ++ []) (length bs))) (send_packet_lem p room))
        ∙ on_recv-send_packet junk p [] good room

    got : get_packet junk (splice 0 bytes (fill sock_buf_size 0)) (length bytes) ≡ ok (counted p)
    got = sym (on_recv_opens junk bytes (omega (arith, size))) ∙ on_recv_got

-- Where a session sends a packet whose fields survive the wire, and that leaves four bytes of the
-- stream free, to a running client with nothing queued: the rounds of the receiving and of the
-- logic thread do what the client does with that packet, with the count of names that `encode`
-- sets.
pub recv_round-send_packet :
    (junk : ℕ) (c : Client) (p : Packet)
    → IsSendable p
    → length (wire p) + 4 ≤ sock_buf_size
    → c.is_worker_run ≡ true
    → c.recv_queue ≡ []
    → (send_packet p >>= recv_round junk c >>= logic_round) ≡ recv_process c (counted p)
unfolding logic_round
recv_round-send_packet junk c p good room running idle =
    ap (λ r. r >>= recv_round junk c >>= logic_round) (send_packet_lem p room)
    ∙ ap (λ r. r >>= logic_round) (recv_round-sent junk c p good room running)
    ∙ ap (λ (b : Bool). if b then logic_front queued queued.recv_queue else ok queued) running
    ∙ ap (λ l. logic_front queued (l ++ counted p ∷ [])) idle
    ∙ ap (λ l. recv_process (record c { recv_queue = l }) (counted p)) (sym idle)
  where
    queued : Client
    queued = record c { recv_queue = c.recv_queue ++ counted p ∷ [] }
