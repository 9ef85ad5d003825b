-- ===== src/Conversation/Whisper.antt =====
-- A line for one user on its way: through the server's threads (ChattingServer_v1.1/ChattingServer) to a
-- client that is in the lobby (ChattingServer_v1.1/ChattingClient).
use tcp_socket_chatting_serv.Base.{
  ℕ, ◌+◌, ◌≤◌, ◌≡◌, refl, sym, ap, ◌∙◌, true, false, List, [], ◌∷◌, ◌++◌, some, length,
  length-append, fill, ◌==◌, arith, ok, fault, wrong_type, ◌>>=◌,
}
use tcp_socket_chatting_serv.Bytes.{le_bytes, length-le_bytes}
use tcp_socket_chatting_serv.Stream.{sock_buf_size}
use tcp_socket_chatting_serv.Packet.Types.{code, type, counted, pk_c_unicast, pk_s_unicast_ok}
use tcp_socket_chatting_serv.Packet.Encoded.{wire, payload}
use tcp_socket_chatting_serv.Packet.Sendable.{IsText}
use tcp_socket_chatting_serv.IoData.RoundTrip.{send_packet_lem}
use tcp_socket_chatting_serv.Server.World.{User, World}
use tcp_socket_chatting_serv.Server.Users.{find_by_nickname}
use tcp_socket_chatting_serv.Server.Cast.{to_all, queued}
use tcp_socket_chatting_serv.Server.Invariant.{IsSound}
use tcp_socket_chatting_serv.Server.Invariant.Unicast.{unicast_found}
use tcp_socket_chatting_serv.Server.Delivery.{run_sends, run_sends_lem, to_all-IsDeliverable}
use tcp_socket_chatting_serv.Server.Reception.{run_process-received}
use tcp_socket_chatting_serv.Client.State.{lobby, Client, recv_process, f_recv_cast, as_room}
use tcp_socket_chatting_serv.Client.Threads.{client_bytes, recv_round, logic_round}
use tcp_socket_chatting_serv.Client.Displays.{IsFit, in_lobby}
use tcp_socket_chatting_serv.Client.Exchange.{
  client_bytes_lem, on_recv-client_bytes, recv_round-send_packet,
}
use tcp_socket_chatting_serv.Conversation.{
  arrival, relay, sockets, socket_of, IsIdle, sent_to, deliveries-to_all,
}

length-texts :
    (xs ys : List ℕ) → length ((xs ++ 0 ∷ []) ++ (ys ++ 0 ∷ [])) ≡ length xs + length ys + 2
length-texts xs ys = omega (
  arith,
  length-append (xs ++ 0 ∷ []) (ys ++ 0 ∷ []),
  length-append xs (0 ∷ []),
  length-append ys (0 ∷ []),
)

length-wire_whispered :
    (recver text : List ℕ)
    → length (wire (pk_c_unicast recver text)) ≡ length recver + length text + 6
unfolding wire payload
length-wire_whispered recver text = omega (
  arith,
  length-append (le_bytes 4 (code (type (pk_c_unicast recver text)))) _,
  length-texts recver text,
  length-le_bytes 4 (code (type (pk_c_unicast recver text))),
)

length-wire_answer :
    (name text : List ℕ) → length (wire (pk_s_unicast_ok name text)) ≡ length name + length text + 6
unfolding wire payload
length-wire_answer name text = omega (
  arith,
  length-append (le_bytes 4 (code (type (pk_s_unicast_ok name text)))) _,
  length-texts name text,
  length-le_bytes 4 (code (type (pk_s_unicast_ok name text))),
)

-- A text for one user takes the display of the lobby for that of a room.
recv_process-whisper :
    (c : Client) (name text : List ℕ)
    → c.state ≡ lobby
    → IsFit c
    → recv_process c (pk_s_unicast_ok name text) ≡ fault wrong_type
unfolding recv_process f_recv_cast as_room
recv_process-whisper c name text state fit = let (d, shown) = in_lobby fit state in rw shown refl

-- What a session sends for a text for one user.
abbrev pub whispered : User → List ℕ → List ℕ
whispered u text = wire (pk_s_unicast_ok u.nickname text) ++ fill 4 0

module _ (junk : ℕ) (w : World) (s p : ℕ) (u v : User) (recver text : List ℕ)
    (here : w.heap s ≡ some u) (there : w.heap p ≡ some v) (sound : IsSound w) (idle : IsIdle w)
    (found : find_by_nickname w recver ≡ ok (some p)) (to : IsText recver) (good : IsText text)
    (fits : length u.nickname + length text + 10 ≤ sock_buf_size)
    (fits_to : length recver + length text + 10 ≤ sock_buf_size) where
  not_empty : (length (client_bytes (pk_c_unicast recver text)) == 0) ≡ false
  not_empty = ground (
    arith,
    length-wire_whispered recver text,
    ap length (
        client_bytes_lem (pk_c_unicast recver text)
          (omega (arith, length-wire_whispered recver text))),
  )

  both : sockets w.heap (s ∷ p ∷ []) ≡ u.session.socket ∷ v.session.socket ∷ []
  unfolding sockets socket_of
  both = rw (here, there) refl

  both_sent :
      run_sends 2 (queued w (to_all (s ∷ p ∷ []) (pk_s_unicast_ok u.nickname text)))
      ≡ ok (sent_to w (u.session.socket ∷ v.session.socket ∷ []) (whispered u text))
  unfolding queued to_all
  both_sent =
      run_sends_lem (queued w (to_all (s ∷ p ∷ []) (pk_s_unicast_ok u.nickname text)))
        (to_all (s ∷ p ∷ []) (pk_s_unicast_ok u.nickname text)) idle.sending
        (ap (λ l. l ++ to_all (s ∷ p ∷ []) (pk_s_unicast_ok u.nickname text)) idle.no_package)
        (to_all-IsDeliverable w.heap (s ∷ p ∷ []) _
          (omega (arith, length-wire_answer u.nickname text)) ((u, here), ((v, there), tt)))
      ∙ ap (λ l. ok (record w { packages = []; sent = w.sent ++ l }))
          (deliveries-to_all w.heap (s ∷ p ∷ []) (pk_s_unicast_ok u.nickname text))
      ∙ ap (λ ks. ok (sent_to w ks (whispered u text))) both

  relay-whisper :
      (tail : List ℕ)
      → relay junk w s (client_bytes (pk_c_unicast recver text)) tail 2
        ≡ ok (sent_to w (u.session.socket ∷ v.session.socket ∷ []) (whispered u text))
  unfolding relay arrival counted to_all
  relay-whisper tail =
      ap (λ r. r >>= run_sends 2)
        (run_process-received junk w (arrival s (client_bytes (pk_c_unicast recver text)) tail) u
            (pk_c_unicast recver text) here idle.working refl refl not_empty
            (on_recv-client_bytes junk (pk_c_unicast recver text) tail (to, good)
              (omega (arith, length-wire_whispered recver text)))
            idle.processing idle.no_job
          ∙ unicast_found w s u here sound recver text (some p) found)
      ∙ both_sent

  -- While the invariant holds, the sender of a unicast and a user who is found under the
  -- receiver's name are there, and the server's threads run with nothing to do: where neither the
  -- text nor the two names are empty or have a NUL, and the text has 1014 bytes at most together
  -- with the sender's name, and with the receiver's, the bytes of the unicast, once received, are
  -- turned by a round of a worker, one of the logic and two of the sender into a text on the
  -- sockets of the sender and of that user, in whatever rooms they are. A running client in the
  -- lobby, whose display is the one of its state and who has nothing queued, takes that display
  -- for one of a room when it receives what was sent.
  pub whisper-wrong_type :
      (reader : Client) (tail : List ℕ)
      → IsText u.nickname
      → reader.state ≡ lobby
      → IsFit reader
      → reader.is_worker_run ≡ true
      → reader.recv_queue ≡ []
      → (relay junk w s (client_bytes (pk_c_unicast recver text)) tail 2
          ≡ ok (sent_to w (u.session.socket ∷ v.session.socket ∷ []) (whispered u text)))
        × ((recv_round junk reader (whispered u text) >>= logic_round) ≡ fault wrong_type)
  unfolding counted
  whisper-wrong_type reader tail named state fit run idle_r =
      let room_for : length (wire (pk_s_unicast_ok u.nickname text)) + 4 ≤ sock_buf_size =
        omega (arith, length-wire_answer u.nickname text) in
      (
        relay-whisper tail,
        sym (
              ap (λ b. b >>= recv_round junk reader >>= logic_round)
                (send_packet_lem (pk_s_unicast_ok u.nickname text) room_for))
            ∙ recv_round-send_packet junk reader (pk_s_unicast_ok u.nickname text) (named, good)
                room_for run idle_r
            ∙ recv_process-whisper reader u.nickname text state fit,
      )
