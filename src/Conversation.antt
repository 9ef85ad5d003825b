-- ===== src/Conversation.antt =====
-- A line of chat on its way: from the client that types it (ChattingServer_v1.1/ChattingClient) through
-- the server's worker, logic and sender (ChattingServer_v1.1/ChattingServer) to a client in the room.
pub mod Shout
pub mod Whisper
use tcp_socket_chatting_serv.Base.{
  ℕ, ◌+◌, ◌≤◌, ◌≡◌, refl, sym, ap, ◌∙◌, true, false, List, [], ◌∷◌, ◌++◌, map, Option, none, some,
  length, length-append, fill, ◌==◌, ==_iff, arith, Result, ok, ◌>>=◌,
}
use tcp_socket_chatting_serv.Bytes.{le_bytes, length-le_bytes}
use tcp_socket_chatting_serv.Containers.{lookup}
use tcp_socket_chatting_serv.Stream.{sock_buf_size}
use tcp_socket_chatting_serv.Packet.Types.{
  Packet, code, type, counted, pk_c_multicast, pk_s_multicast,
}
use tcp_socket_chatting_serv.Packet.Encoded.{wire, payload}
use tcp_socket_chatting_serv.Packet.Sendable.{IsText}
use tcp_socket_chatting_serv.IoData.RoundTrip.{send_packet_lem}
use tcp_socket_chatting_serv.Server.World.{User, Room, World}
use tcp_socket_chatting_serv.Server.Threads.{Completion, io_recv, run_worker, run_process}
use tcp_socket_chatting_serv.Server.Cast.{to_all}
use tcp_socket_chatting_serv.Server.Invariant.{Heap, IsSound}
use tcp_socket_chatting_serv.Server.Delivery.{
  run_sends, deliveries, delivery, to_socket, multicast-run_sends,
}
use tcp_socket_chatting_serv.Server.Reception.{run_process-received}
use tcp_socket_chatting_serv.Client.Commands.{send_chat}
use tcp_socket_chatting_serv.Client.Room.{RoomDisplay, cast, print, on_recv}
use tcp_socket_chatting_serv.Client.State.{
  chatroom, room_display, Client, is_chatroom, push_queue, recv_process, f_recv_cast, as_room,
}
use tcp_socket_chatting_serv.Client.Threads.{
  client_bytes, say, live_room, send_front, send_round, recv_round, logic_round,
}
use tcp_socket_chatting_serv.Client.Exchange.{
  client_bytes_lem, on_recv-client_bytes, recv_round-send_packet,
}

-- The client types a line in a room, and its sending thread does a round: what is sent, if anything.
unfoldable pub say_and_send : Client → ℕ → List ℕ → Result (Option (List ℕ))
say_and_send c page line = do c' ← say c page line; ok (send_round c' true).1

-- The completion of the receive of these bytes for a session, with what else is in its buffer.
unfoldable pub arrival : ℕ → List ℕ → List ℕ → Completion
arrival s bytes tail = record {
  success = true;
  io_size = length bytes;
  session = s;
  overlapped = some io_recv;
  buffer = bytes ++ tail;
}

-- A round of the worker with the bytes, one of the logic, and `n` of the sender.
unfoldable pub relay : ℕ → World → ℕ → List ℕ → List ℕ → ℕ → Result World
relay junk w s bytes tail n =
    run_worker junk w (arrival s bytes tail) true >>= run_process >>= run_sends n

-- The sockets of users, and the same bytes for each of them.
unfoldable pub socket_of : Option User → List ℕ
socket_of none = []
socket_of (some u) = u.session.socket ∷ []

unfoldable pub sockets : Heap → List ℕ → List ℕ
unfolding socket_of
sockets heap [] = []
sockets heap (p ∷ users) = socket_of (heap p) ++ sockets heap users

map-append : (f : ℕ → ℕ × List ℕ) (xs ys : List ℕ) → map f (xs ++ ys) ≡ map f xs ++ map f ys
map-append f [] ys = refl
map-append f (x ∷ xs) ys = ap (◌∷◌ (f x)) (map-append f xs ys)

to_socket-map :
    (user : Option User) (p : Packet)
    → to_socket user p ≡ map (λ k. (k, wire p ++ fill 4 0)) (socket_of user)
unfolding to_socket socket_of
to_socket-map none p = refl
to_socket-map (some u) p = refl

pub deliveries-to_all :
    (heap : Heap) (users : List ℕ) (p : Packet)
    → deliveries heap (to_all users p) ≡ map (λ k. (k, wire p ++ fill 4 0)) (sockets heap users)
unfolding deliveries to_all sockets delivery
deliveries-to_all heap [] p = refl
deliveries-to_all heap (q ∷ users) p = rw (
  map-append (λ k. (k, wire p ++ fill 4 0)) (socket_of (heap q)) (sockets heap users),
  to_socket-map (heap q) p,
  deliveries-to_all heap users p,
)

length-wire_said : (text : List ℕ) → length (wire (pk_c_multicast text)) ≡ length text + 5
unfolding wire payload
length-wire_said text = omega (
  arith,
  length-append (le_bytes 4 (code (type (pk_c_multicast text)))) (text ++ 0 ∷ []),
  length-append text (0 ∷ []),
  length-le_bytes 4 (code (type (pk_c_multicast text))),
)

length-wire_told :
    (name text : List ℕ) → length (wire (pk_s_multicast name text)) ≡ length name + length text + 6
unfolding wire payload
length-wire_told name text = omega (
  arith,
  length-append (le_bytes 4 (code (type (pk_s_multicast name text))))
      ((name ++ 0 ∷ []) ++ (text ++ 0 ∷ [])),
  length-append (name ++ 0 ∷ []) (text ++ 0 ∷ []),
  length-append text (0 ∷ []),
  length-append name (0 ∷ []),
  length-le_bytes 4 (code (type (pk_s_multicast name text))),
)

-- In a room, with nothing to be sent yet, a line is sent as the packet that it stands for.
say_and_send_lem :
    (c : Client) (r : RoomDisplay) (ch : ℕ) (line : List ℕ)
    → c.state ≡ chatroom
    → c.display ≡ room_display r
    → c.is_worker_run ≡ true
    → c.send_queue ≡ []
    → say_and_send c c.display_no (ch ∷ line) ≡ ok (some (client_bytes (send_chat (ch ∷ line))))
unfolding say_and_send say send_round send_front live_room as_room push_queue is_chatroom
say_and_send_lem c r ch line in_room shown running idle =
    let same : (c.display_no == c.display_no) ≡ true = (==_iff c.display_no c.display_no).1 refl in
    rw (in_room, same, shown, running, idle) refl

-- What the client of a room prints of a multicast.
f_recv_cast_multicast :
    (c : Client) (r : RoomDisplay) (name text : List ℕ)
    → c.display ≡ room_display r
    → recv_process c (pk_s_multicast name text)
      ≡ ok (record c { display = room_display (print r (cast 15 name text)) })
unfolding recv_process f_recv_cast as_room on_recv
f_recv_cast_multicast c r name text shown = rw shown refl

-- The server's threads run, and none has anything to do.
pub record IsIdle (w : World) : Type 0 where
  pub working : w.worker_run ≡ true
  pub processing : w.process_run ≡ true
  pub sending : w.send_run ≡ true
  pub no_job : w.job_queue ≡ []
  pub no_package : w.packages ≡ []

-- What a session sends for a multicast, and a world in which it was sent to some sockets.
abbrev pub told : User → List ℕ → List ℕ
told u text = wire (pk_s_multicast u.nickname text) ++ fill 4 0

abbrev pub sent_to : World → List ℕ → List ℕ → World
sent_to w ks bytes = record w { packages = []; sent = w.sent ++ map (λ k. (k, bytes)) ks }

client_bytes-not_empty :
    (text : List ℕ)
    → length text + 5 ≤ sock_buf_size
    → (length (client_bytes (pk_c_multicast text)) == 0) ≡ false
client_bytes-not_empty text fits = ground (
  arith,
  length-wire_said text,
  ap length (client_bytes_lem (pk_c_multicast text) (omega (arith, length-wire_said text))),
)

module _ (junk : ℕ) (w : World) (s : ℕ) (u : User) (text : List ℕ) (rid : ℕ) (room : Room)
    (here : w.heap s ≡ some u) (sound : IsSound w) (inside : u.curr_room ≡ some rid)
    (found : lookup rid w.room_list ≡ some room) (idle : IsIdle w) (good : IsText text)
    (fits : length u.nickname + length text + 10 ≤ sock_buf_size) where
  relay_lem :
      (tail : List ℕ)
      → relay junk w s (client_bytes (pk_c_multicast text)) tail (length room.users)
        ≡ ok (sent_to w (sockets w.heap room.users) (told u text))
  unfolding relay arrival counted
  relay_lem tail =
      ap (λ r. r >>= run_sends (length room.users))
        (run_process-received junk w (arrival s (client_bytes (pk_c_multicast text)) tail) u
          (pk_c_multicast text) here idle.working refl refl
          (client_bytes-not_empty text (omega arith))
          (on_recv-client_bytes junk (pk_c_multicast text) tail good
            (omega (arith, length-wire_said text)))
          idle.processing idle.no_job)
      ∙ multicast-run_sends w s u text rid room here sound inside found idle.sending idle.no_package
          (omega (arith, length-wire_told u.nickname text))
      ∙ ap (λ l. ok (record w { packages = []; sent = w.sent ++ l }))
          (deliveries-to_all w.heap room.users (pk_s_multicast u.nickname text))

  -- While the invariant holds and the user of a session is there, in a room that exists, and the
  -- server's threads run with nothing to do: where a line is not empty, is one for the room, and
  -- has no NUL, nor has the user's name, which is not empty either, and both have 1014 bytes at
  -- most together, then a running client in a room, with nothing queued, sends for the line bytes
  -- that, once the session has received them, a round of a worker, one of the logic and as many of
  -- the sender as the room has members turn into a multicast on the sockets of all members, in
  -- their order, and into nothing else; and any running client in a room, with nothing queued,
  -- that receives what was sent prints the line under the user's name.
  pub conversation :
      (typist reader : Client) (r d : RoomDisplay) (ch : ℕ) (line tail : List ℕ)
      → text ≡ ch ∷ line
      → send_chat text ≡ pk_c_multicast text
      → IsText u.nickname
      → typist.state ≡ chatroom
      → typist.display ≡ room_display r
      → typist.is_worker_run ≡ true
      → typist.send_queue ≡ []
      → reader.display ≡ room_display d
      → reader.is_worker_run ≡ true
      → reader.recv_queue ≡ []
      → (bytes : List ℕ) × (say_and_send typist typist.display_no text ≡ ok (some bytes))
        × (relay junk w s bytes tail (length room.users)
            ≡ ok (sent_to w (sockets w.heap room.users) (told u text)))
        × ((recv_round junk reader (told u text) >>= logic_round)
            ≡ ok (record reader { display = room_display (print d (cast 15 u.nickname text)) }))
  unfolding counted
  conversation typist reader r d ch line tail is_line plain named in_room shown run_t idle_t seen
        run_r idle_r =
      (
        client_bytes (pk_c_multicast text),
        ap (say_and_send typist typist.display_no) is_line
            ∙ say_and_send_lem typist r ch line in_room shown run_t idle_t
            ∙ ap (λ l. ok (some (client_bytes (send_chat l)))) (sym is_line)
            ∙ ap (λ p. ok (some (client_bytes p))) plain,
        relay_lem tail,
        sym (
              ap (λ b. b >>= recv_round junk reader >>= logic_round)
                (send_packet_lem (pk_s_multicast u.nickname text) room_for))
            ∙ recv_round-send_packet junk reader (pk_s_multicast u.nickname text) (named, good)
                room_for run_r idle_r
            ∙ f_recv_cast_multicast reader d u.nickname text seen,
      )
    where
      room_for : length (wire (pk_s_multicast u.nickname text)) + 4 ≤ sock_buf_size
      room_for = omega (arith, length-wire_told u.nickname text)
