-- ===== src/Legacy/Talk.antt =====
-- A line of chat in version 1.0: typed in ChattingServer_v1.0/ChattingClient/IOCPClient.cpp, cast by
-- ChattingServer_v1.0/ChattingServer (PacketManager.hpp, ChatClientManager.h), and printed by a client.
use tcp_socket_chatting_serv.Base.{
  ℕ, suc, ◌≤◌, ◌≡◌, ◌≢◌, refl, sym, ap, subst, ◌∙◌, inl, inr, true, false, ◌&&◌, Bool-cases, List,
  [], ◌∷◌, ◌++◌, append_assoc, map, some, All, length, length-append, take-append_length,
  take-length, get_elem?, ◌==◌, if◌then◌else◌, arith, ok, ◌>>=◌,
}
use tcp_socket_chatting_serv.Legacy.Slots.{range}
use tcp_socket_chatting_serv.Legacy.User.{io_send, UserInfo, lobby_no, is_connected}
use tcp_socket_chatting_serv.Legacy.Manager.{Sent, client_at}
use tcp_socket_chatting_serv.Legacy.Packets.{
  PacketInfo, multi, chat_multicast, set_packet, packet_type, copied,
}
use tcp_socket_chatting_serv.Legacy.Cast.{cast_room, multi_to, multi_cast}
use tcp_socket_chatting_serv.Legacy.Process.{
  Server, classify_packet, process_chat_multicast, enqueue_packet, cast_packet, run_front,
  run_packet,
}
use tcp_socket_chatting_serv.Legacy.Threads.{on_receive}
use tcp_socket_chatting_serv.Legacy.RoomCast.{casts, told, There, There-range, multi_from_lem}
use tcp_socket_chatting_serv.Legacy.Rows.{Rows}

-- The server queues what was sent as a text for the room.
pub on_receive-multicast :
    (i : ℕ) (bytes tail : List ℕ) (s : Server)
    → packet_type (bytes ++ tail) ≡ chat_multicast
    → on_receive i (length bytes) (bytes ++ tail) s
      ≡ ok (record s {
        packet_queue =
            s.packet_queue
            ++ record {
              client_index = i;
              data_size = length bytes;
              send_type = multi;
              is_close = false;
              packet_data = bytes;
            }
              ∷ [];
      })
unfolding on_receive classify_packet set_packet process_chat_multicast enqueue_packet copied
on_receive-multicast i bytes tail s multicast =
    rw (multicast, take-append_length bytes tail, take-length bytes) refl

-- The clients of a list, the first of which is `i`, that are connected and in the room.
unfoldable pub hearers : ℕ → ℕ → List UserInfo → List ℕ
hearers room i [] = []
hearers room i (u ∷ infos) =
    let rest = hearers room (suc i) infos in
    if is_connected u && (u.room == room) then i ∷ rest else rest

get_elem?-behind :
    (before : List UserInfo) (u : UserInfo) (infos : List UserInfo)
    → get_elem? (before ++ u ∷ infos) (length before) ≡ some u
get_elem?-behind [] u infos = refl
get_elem?-behind (v ∷ before) u infos = get_elem?-behind before u infos

casts-hearers :
    (p : PacketInfo) (room : ℕ) (before infos : List UserInfo)
    → casts p room (before ++ infos) (range (length before) (length infos))
      ≡ map (told p) (hearers room (length before) infos)
unfolding casts hearers range
casts-hearers p room before [] = refl
casts-hearers p room before (u ∷ infos) =
    let one : length (before ++ u ∷ []) ≡ suc (length before) =
      omega (arith, length-append before (u ∷ [])) in
    let rest : casts p room (before ++ u ∷ infos) (range (suc (length before)) (length infos))
        ≡ map (told p) (hearers room (suc (length before)) infos) =
      ap (λ l. casts p room l (range (suc (length before)) (length infos)))
        (sym (append_assoc before (u ∷ []) infos))
      ∙ ap (λ n. casts p room ((before ++ u ∷ []) ++ infos) (range n (length infos))) (sym one)
      ∙ casts-hearers p room (before ++ u ∷ []) infos
      ∙ ap (λ n. map (told p) (hearers room n infos)) one in
    elim (Bool-cases (is_connected u && (u.room == room))) [
      | inl hears ↦ rw (get_elem?-behind before u infos, hears, rest)
      | inr deaf ↦ rw (get_elem?-behind before u infos, deaf, rest)
    ]

-- The packet that the server casts for bytes that it received.
abbrev room_packet : ℕ → List ℕ → PacketInfo
room_packet i bytes = record {
  client_index = i;
  data_size = length bytes;
  send_type = multi;
  is_close = false;
  packet_data = bytes;
}

-- The bytes, sent to each of some clients.
abbrev pub sent_to : List ℕ → List ℕ → List Sent
sent_to bytes is = map (λ k. record { receiver = k; bytes = bytes; operation = io_send }) is

told-room_packet :
    (i : ℕ) (bytes is : List ℕ) → map (told (room_packet i bytes)) is ≡ sent_to bytes is
told-room_packet i bytes [] = refl
told-room_packet i bytes (k ∷ is) =
    let whole : told (room_packet i bytes) k
        ≡ record { receiver = k; bytes = bytes; operation = io_send } =
      ap (λ l. record { receiver = k; bytes = l; operation = io_send }) (take-length bytes) in
    ap (◌∷◌ (told (room_packet i bytes) k)) (told-room_packet i bytes is)
    ∙ ap (λ x. x ∷ sent_to bytes is) whole

module _ (s : Server) (i : ℕ) (u : UserInfo) (bytes : List ℕ) (idle : s.packet_queue ≡ [])
    (size : length s.manager.client_infos ≡ s.manager.current_capacity)
    (at : get_elem? s.manager.client_infos i ≡ some u) (inside : u.room ≢ lobby_no)
    (some_ : 1 ≤ length bytes) where
  -- The server in which the room has been sent the bytes.
  abbrev relayed : Server
  relayed = record s {
    packet_queue = [];
    manager = record s.manager {
      sent = s.manager.sent ++ sent_to bytes (hearers u.room 0 s.manager.client_infos);
    };
  }

  run_packet-multicast :
      run_packet
        (λ _. true)
        (record s { packet_queue = s.packet_queue ++ room_packet i bytes ∷ [] })
      ≡ ok relayed
  unfolding run_packet run_front cast_packet multi_cast client_at cast_room multi_to
  run_packet-multicast =
      let not_empty : (length bytes == 0) ≡ false = ground arith in
      let away : (u.room == lobby_no) ≡ false = ground arith in
      rw (idle, not_empty, at, away)
        (ap (λ r. r >>= (λ m. ok (record s { manager = m; packet_queue = [] })))
            (multi_from_lem (room_packet i bytes) u.room (range 0 s.manager.current_capacity)
              s.manager
              (subst (λ k. All (There s.manager.client_infos) (range 0 k)) size
                (There-range s.manager.client_infos)))
          ∙ ap
              (λ l. ok (record s {
                manager = record s.manager { sent = s.manager.sent ++ l };
                packet_queue = [];
              }))
              (ap (λ k. casts (room_packet i bytes) u.room s.manager.client_infos (range 0 k))
                  (sym size)
                ∙ casts-hearers (room_packet i bytes) u.room [] s.manager.client_infos
                ∙ told-room_packet i bytes (hearers u.room 0 s.manager.client_infos)))

  pub on_receive-relayed :
      (tail : List ℕ)
      → packet_type (bytes ++ tail) ≡ chat_multicast
      → (on_receive i (length bytes) (bytes ++ tail) s >>= run_packet (λ _. true)) ≡ ok relayed
  on_receive-relayed tail multicast =
      ap (λ r. r >>= run_packet (λ _. true)) (on_receive-multicast i bytes tail s multicast)
      ∙ run_packet-multicast
