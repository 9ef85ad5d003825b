-- ===== src/Conversation/Shout.antt =====
-- A line for all on its way: `/all` of ChattingServer_v1.1/ChattingClient/RoomDisplay.h, through the
-- server's threads (ChattingServer_v1.1/ChattingServer), to a client in any room.
use tcp_socket_chatting_serv.Base.{
  ℕ, ◌+◌, ◌*◌, ◌≤◌, ◌≡◌, refl, sym, ap, ◌∙◌, true, false, List, [], ◌∷◌, ◌++◌, some, All,
  All-append, length, length-append, fill, ◌==◌, arith, ok, ◌>>=◌,
}
use tcp_socket_chatting_serv.Bytes.{le_bytes, length-le_bytes}
use tcp_socket_chatting_serv.Containers.Laws.{All-map}
use tcp_socket_chatting_serv.Stream.{sock_buf_size}
use tcp_socket_chatting_serv.Packet.Types.{
  Packet, code, type, counted, pk_c_broadcast, pk_s_broadcast,
}
use tcp_socket_chatting_serv.Packet.Encoded.{wire, payload}
use tcp_socket_chatting_serv.Packet.Sendable.{IsText}
use tcp_socket_chatting_serv.IoData.RoundTrip.{send_packet_lem}
use tcp_socket_chatting_serv.Server.World.{User, Room, World, SendPackage}
use tcp_socket_chatting_serv.Server.Cast.{Live, package_to, to_all, to_rooms, queued}
use tcp_socket_chatting_serv.Server.Invariant.{Heap, IsSound}
use tcp_socket_chatting_serv.Server.Invariant.Handlers.{broadcast_lem}
use tcp_socket_chatting_serv.Server.Delivery.{
  run_sends, run_sends_lem, to_all-IsDeliverable, length-to_all,
}
use tcp_socket_chatting_serv.Server.Reception.{run_process-received}
use tcp_socket_chatting_serv.Client.Commands.{send_chat}
use tcp_socket_chatting_serv.Client.Room.{RoomDisplay, cast, print, on_recv}
use tcp_socket_chatting_serv.Client.State.{
  chatroom, room_display, Client, recv_process, f_recv_cast, as_room,
}
use tcp_socket_chatting_serv.Client.Threads.{client_bytes, recv_round, logic_round}
use tcp_socket_chatting_serv.Client.Exchange.{
  client_bytes_lem, on_recv-client_bytes, recv_round-send_packet,
}
use tcp_socket_chatting_serv.Conversation.{
  say_and_send, say_and_send_lem, arrival, relay, sockets, IsIdle, sent_to, deliveries-to_all,
}

-- The members of all rooms, in the order of the map.
unfoldable pub everyone : List (ℕ × Room) → List ℕ
everyone [] = []
everyone ((_, room) ∷ rooms) = room.users ++ everyone rooms

to_all-append : (xs ys : List ℕ) (p : Packet) → to_all (xs ++ ys) p ≡ to_all xs p ++ to_all ys p
unfolding to_all
to_all-append [] ys p = refl
to_all-append (x ∷ xs) ys p = ap (◌∷◌ (package_to x p)) (to_all-append xs ys p)

to_rooms-everyone :
    (rooms : List (ℕ × Room)) (p : Packet) → to_rooms rooms p ≡ to_all (everyone rooms) p
unfolding to_rooms everyone to_all
to_rooms-everyone [] p = refl
to_rooms-everyone ((_, room) ∷ rooms) p =
    ap (◌++◌ (to_all room.users p)) (to_rooms-everyone rooms p)
    ∙ sym (to_all-append room.users (everyone rooms) p)

everyone-Live :
    (heap : Heap) (rooms : List (ℕ × Room))
    → All (λ (e : ℕ × Room). All (Live heap) e.1.users) rooms
    → All (Live heap) (everyone rooms)
unfolding everyone
everyone-Live heap [] live = tt
everyone-Live heap ((_, room) ∷ rooms) (here, live) =
    All-append (Live heap) room.users (everyone rooms) here (everyone-Live heap rooms live)

length-wire_shouted : (text : List ℕ) → length (wire (pk_c_broadcast text)) ≡ length text + 5
unfolding wire payload
length-wire_shouted text = omega (
  arith,
  length-append (le_bytes 4 (code (type (pk_c_broadcast text)))) (text ++ 0 ∷ []),
  length-append text (0 ∷ []),
  length-le_bytes 4 (code (type (pk_c_broadcast text))),
)

length-wire_all :
    (name text : List ℕ) → length (wire (pk_s_broadcast name text)) ≡ length name + length text + 6
unfolding wire payload
length-wire_all name text = omega (
  arith,
  length-append (le_bytes 4 (code (type (pk_s_broadcast name text))))
      ((name ++ 0 ∷ []) ++ (text ++ 0 ∷ [])),
  length-append (name ++ 0 ∷ []) (text ++ 0 ∷ []),
  length-append text (0 ∷ []),
  length-append name (0 ∷ []),
  length-le_bytes 4 (code (type (pk_s_broadcast name text))),
)

recv_process-broadcast :
    (c : Client) (r : RoomDisplay) (name text : List ℕ)
    → c.display ≡ room_display r
    → recv_process c (pk_s_broadcast name text)
      ≡ ok (record c { display = room_display (print r (cast (4 + 14 * 16) name text)) })
unfolding recv_process f_recv_cast as_room on_recv
recv_process-broadcast c r name text shown = rw shown refl

-- What a session sends for a broadcast.
abbrev pub shouted : User → List ℕ → List ℕ
shouted u text = wire (pk_s_broadcast u.nickname text) ++ fill 4 0

module _ (junk : ℕ) (w : World) (s : ℕ) (u : User) (text : List ℕ) (here : w.heap s ≡ some u)
    (sound : IsSound w) (idle : IsIdle w) (good : IsText text)
    (fits : length u.nickname + length text + 10 ≤ sock_buf_size) where
  packages : List SendPackage
  packages = to_all (everyone w.room_list) (pk_s_broadcast u.nickname text)

  not_empty : (length (client_bytes (pk_c_broadcast text)) == 0) ≡ false
  not_empty = ground (
    arith,
    length-wire_shouted text,
    ap length (client_bytes_lem (pk_c_broadcast text) (omega (arith, length-wire_shouted text))),
  )

  sent_all :
      run_sends (length (everyone w.room_list)) (queued w packages)
      ≡ ok (sent_to w (sockets w.heap (everyone w.room_list)) (shouted u text))
  unfolding queued packages
  sent_all =
      ap (λ n. run_sends n (queued w packages)) (sym (length-to_all (everyone w.room_list) _))
      ∙ run_sends_lem (queued w packages) packages idle.sending
          (ap (λ l. l ++ packages) idle.no_package)
          (to_all-IsDeliverable w.heap (everyone w.room_list) _
            (omega (arith, length-wire_all u.nickname text))
            (everyone-Live w.heap w.room_list (
              All-map _ _ w.room_list (λ e m. All-map _ _ e.1.users (λ q i. (i.0, i.1)) m)
                sound.members)))
      ∙ ap (λ l. ok (record w { packages = []; sent = w.sent ++ l }))
          (deliveries-to_all w.heap (everyone w.room_list) (pk_s_broadcast u.nickname text))

  relay-shout :
      (tail : List ℕ)
      → relay junk w s (client_bytes (pk_c_broadcast text)) tail (length (everyone w.room_list))
        ≡ ok (sent_to w (sockets w.heap (everyone w.room_list)) (shouted u text))
  unfolding relay arrival counted packages queued
  relay-shout tail =
      ap (λ r. r >>= run_sends (length (everyone w.room_list)))
        (run_process-received junk w (arrival s (client_bytes (pk_c_broadcast text)) tail) u
            (pk_c_broadcast text) here idle.working refl refl not_empty
            (on_recv-client_bytes junk (pk_c_broadcast text) tail good
              (omega (arith, length-wire_shouted text)))
            idle.processing idle.no_job
          ∙ broadcast_lem w s u here sound text
          ∙ ap (λ l. ok (queued w l)) (to_rooms-everyone w.room_list _))
      ∙ sent_all

  -- Like conversation, for a line for all. While the invariant holds, the user of a session is
  -- there, and the server's threads run with nothing to do: let a line mean a text for all
  -- (send_chat), let neither the text nor the user's name be empty or have a NUL, and let both
  -- have 1014 bytes at most together. Then a running client in a room, with nothing queued, sends
  -- bytes for this line which, once received, a round of a worker, one of the logic and as many of
  -- the sender as all rooms have members turn into a broadcast on the sockets of the members of
  -- all rooms, in the order of the map, and into nothing else; and any running client in a room,
  -- with nothing queued, that receives what was sent prints the text under the user's name.
  pub shouting :
      (typist reader : Client) (r d : RoomDisplay) (ch : ℕ) (line tail : List ℕ)
      → send_chat (ch ∷ line) ≡ pk_c_broadcast text
      → IsText u.nickname
      → typist.state ≡ chatroom
      → typist.display ≡ room_display r
      → typist.is_worker_run ≡ true
      → typist.send_queue ≡ []
      → reader.display ≡ room_display d
      → reader.is_worker_run ≡ true
      → reader.recv_queue ≡ []
      → (bytes : List ℕ) × (say_and_send typist typist.display_no (ch ∷ line) ≡ ok (some bytes))
        × (relay junk w s bytes tail (length (everyone w.room_list))
            ≡ ok (sent_to w (sockets w.heap (everyone w.room_list)) (shouted u text)))
        × ((recv_round junk reader (shouted u text) >>= logic_round)
            ≡ ok (record reader {
              display = room_display (print d (cast (4 + 14 * 16) u.nickname text));
            }))
  unfolding counted
  shouting typist reader r d ch line tail means named in_room shown run_t idle_t seen run_r idle_r =
      let room_for : length (wire (pk_s_broadcast u.nickname text)) + 4 ≤ sock_buf_size =
        omega (arith, length-wire_all u.nickname text) in
      (
        client_bytes (pk_c_broadcast text),
        say_and_send_lem typist r ch line in_room shown run_t idle_t
            ∙ ap (λ p. ok (some (client_bytes p))) means,
        relay-shout tail,
        sym (
              ap (λ b. b >>= recv_round junk reader >>= logic_round)
                (send_packet_lem (pk_s_broadcast u.nickname text) room_for))
            ∙ recv_round-send_packet junk reader (pk_s_broadcast u.nickname text) (named, good)
                room_for run_r idle_r
            ∙ recv_process-broadcast reader d u.nickname text seen,
      )
