-- ===== src/Stress/Entry.antt =====
-- What the server of version 1.0 (ChattingServer_v1.0/ChattingServer) makes of the packets that the load
-- generator sends: `InitPacket` of ChattingServer_v1.0/StressServer/ClientInfo.cpp.
use tcp_socket_chatting_serv.Base.{
  ℕ, suc, ◌+◌, ◌-◌, ◌%◌, ◌^◌, ◌≤◌, ◌<◌, ◌≡◌, refl, sym, ap, ◌∙◌, true, List, [], ◌∷◌, ◌++◌,
  append_assoc, some, All, take, drop, drop-append_length, length, length-take, take-front,
  All-take, leb, le→leb, get_elem?, arith, ok, ◌>>=◌,
}
use tcp_socket_chatting_serv.Bytes.{le_bytes, from_le, from_le-le_bytes}
use tcp_socket_chatting_serv.Stream.{splice}
use tcp_socket_chatting_serv.Stream.Read.{IsChar}
use tcp_socket_chatting_serv.Legacy.Slots.{get_elem?-set_at}
use tcp_socket_chatting_serv.Legacy.User.{UserInfo, lobby_no, set_nickname, enter_room}
use tcp_socket_chatting_serv.Legacy.Manager.{ClientManager, client_at, put_client}
use tcp_socket_chatting_serv.Legacy.Packets.{
  server_enter, room_enter, name_at, set_packet, packet_type, room_no,
}
use tcp_socket_chatting_serv.Legacy.Cast.{find_nickname, name_client}
use tcp_socket_chatting_serv.Legacy.Process.{
  Server, classify_packet, process_server_enter, process_room_enter, answer_enter, enqueue_packet,
}
use tcp_socket_chatting_serv.Legacy.Threads.{on_receive}
use tcp_socket_chatting_serv.Legacy.Client.{name_field}
use tcp_socket_chatting_serv.Legacy.Names.{c_str-chars, length-name_field, until_nul-chars}
use tcp_socket_chatting_serv.Stress.Clients.{
  StressClient, init_packet, send_msg, is_connected, has_socket, server_enter_packet,
  server_enter_sent, room_enter_sent,
}

-- Four bytes of what is sent are the header.
server_enter_sent-cut :
    (junk name : List ℕ) (k : ℕ)
    → k + 3 ≡ length name
    → server_enter_sent junk name
      ≡ le_bytes 2 (length name + 1) ++ (le_bytes 2 server_enter ++ take k name)
unfolding server_enter_sent server_enter_packet name_field splice le_bytes
server_enter_sent-cut junk name k size =
    let four : length name + 1 ≡ suc (suc (suc (suc k))) = omega arith in
    ap (λ n. take n (server_enter_packet junk name)) four
    ∙ ap (λ l. le_bytes 2 (length name + 1) ++ (le_bytes 2 server_enter ++ l))
        (ap (take k) (append_assoc name (0 ∷ []) _) ∙ take-front k name _ (omega arith))

-- The client at a place of the pool, once another was put there.
client_at-put_client :
    (m : ClientManager) (i : ℕ) (u v : UserInfo)
    → get_elem? m.client_infos i ≡ some u
    → client_at (put_client m i v) i ≡ ok v
unfolding client_at put_client
client_at-put_client m i u v there = rw (get_elem?-set_at i u v m.client_infos there)

-- The server that took a short name for the client, and queued its answer.
module _ (s : Server) (i : ℕ) (u : UserInfo) (name : List ℕ) (k : ℕ)
    (there : get_elem? s.manager.client_infos i ≡ some u) (size : k + 3 ≡ length name)
    (short : length name < 32) (chars : All IsChar name) where
  -- The user, once named by what came of the name.
  abbrev named : UserInfo
  named = record u {
    room = lobby_no;
    id = some s.manager.next_id;
    nickname = splice 0 (take k name) u.nickname;
  }

  on_receive-named :
      (junk rest : List ℕ)
      → (s' : Server) × (on_receive i
            (length (server_enter_sent junk name))
            (server_enter_sent junk name ++ 0 ∷ rest)
            s
          ≡ ok s')
        × (get_elem? s'.manager.client_infos i ≡ some named)
  unfolding on_receive classify_packet packet_type process_server_enter find_nickname answer_enter
      name_client client_at put_client name_at set_nickname le_bytes enqueue_packet set_packet
      from_le
  on_receive-named junk rest =
      let cut : leb (length (take k name)) 32 ≡ true =
        le→leb _ 32 (omega (arith, length-take k name (omega arith))) in
      rw
        (
          server_enter_sent-cut junk name k size,
          there,
          c_str-chars (take k name) rest (All-take IsChar k name chars),
          cut,
        )
        (_, refl, get_elem?-set_at i u named s.manager.client_infos there)

room_no-room_enter_sent :
    (junk name : List ℕ) (room : ℕ) (tail : List ℕ)
    → length junk ≡ 32
    → length name < 32
    → room < 2 ^ 32
    → room_no (room_enter_sent junk name room ++ tail) ≡ room
unfolding room_no room_enter_sent name_field le_bytes
room_no-room_enter_sent junk name room tail size short bound =
    ap (λ l. from_le (take 4 (drop 32 l))) (append_assoc field (le_bytes 4 room) tail)
    ∙ ap (λ n. from_le (take 4 (drop n (field ++ (le_bytes 4 room ++ tail))))) (sym whole)
    ∙ ap (λ l. from_le (take 4 l)) (drop-append_length field (le_bytes 4 room ++ tail))
    ∙ from_le-le_bytes 4 room (omega arith)
  where
    field : List ℕ
    field = name_field junk name

    whole : length field ≡ 32
    whole = length-name_field junk name size short

packet_type-room_enter_sent :
    (junk name : List ℕ) (room : ℕ) (tail : List ℕ)
    → packet_type (room_enter_sent junk name room ++ tail) ≡ room_enter
unfolding packet_type room_enter_sent le_bytes from_le
packet_type-room_enter_sent junk name room tail = refl

module _ (s : Server) (i : ℕ) (u : UserInfo) (room : ℕ)
    (there : get_elem? s.manager.client_infos i ≡ some u) (lobby : u.room ≡ lobby_no)
    (bound : room < 2 ^ 32) where
  on_receive-entered :
      (junk name tail : List ℕ)
      → length junk ≡ 32
      → length name < 32
      → (s' : Server) × (on_receive i
            (length (room_enter_sent junk name room))
            (room_enter_sent junk name room ++ tail)
            s
          ≡ ok s')
        × (get_elem? s'.manager.client_infos i ≡ some (record u { room = room }))
  unfolding on_receive classify_packet process_room_enter client_at put_client enqueue_packet
      set_packet enter_room
  on_receive-entered junk name tail size short =
      rw
        (
          packet_type-room_enter_sent junk name room tail,
          there,
          lobby,
          room_no-room_enter_sent junk name room tail size short bound,
        )
        (_, refl, get_elem?-set_at i u _ s.manager.client_infos there)

-- What `InitPacket` sends, where both sends are taken.
init_packet-sent :
    (junk name : List ℕ) (c : StressClient) (socket : ℕ)
    → c.socket ≡ some socket
    → length name < 32
    → All IsChar name
    → init_packet junk (λ _. true) name c
      ≡ ok (record c {
        nickname = name;
        sent =
            (c.sent ++ server_enter_sent junk name ∷ [])
            ++ room_enter_sent junk name (c.index % 5 + 1) ∷ [];
      })
unfolding init_packet send_msg is_connected has_socket
init_packet-sent junk name c socket on short chars =
    rw (on, until_nul-chars name chars, le→leb (length name + 1) 32 (omega arith)) refl

-- Where a client of the load generator of version 1.0 is connected, both of its sends are taken
-- and arrive one by one, the first in a buffer with a NUL behind it, and its name has 3 bytes at
-- least, 31 at most and no NUL: the server of version 1.0 enters the client in the room that its
-- index gives, and names it without the last three bytes of the name.
pub init_packet-entered :
    (junk name rest tail : List ℕ) (c : StressClient) (socket : ℕ) (s : Server) (i : ℕ)
    (u : UserInfo)
    → length junk ≡ 32
    → 3 ≤ length name
    → length name < 32
    → All IsChar name
    → c.socket ≡ some socket
    → get_elem? s.manager.client_infos i ≡ some u
    → (first second : List ℕ) × (init_packet junk (λ _. true) name c
        ≡ ok (record c { nickname = name; sent = (c.sent ++ first ∷ []) ++ second ∷ [] }))
      × (s' : Server) × ((on_receive i (length first) (first ++ 0 ∷ rest) s
            >>= on_receive i (length second) (second ++ tail))
          ≡ ok s')
      × (get_elem? s'.manager.client_infos i
          ≡ some (record u {
            room = c.index % 5 + 1;
            id = some s.manager.next_id;
            nickname = splice 0 (take (length name - 3) name) u.nickname;
          }))
init_packet-entered junk name rest tail c socket s i u size long short chars on there =
    let k : ℕ = length name - 3 in
    let (s₁, first, user) =
      on_receive-named s i u name k there (omega arith) short chars junk rest in
    let (s₂, second, last) =
      on_receive-entered s₁ i (named s i u name k there (omega arith) short chars) (c.index % 5 + 1)
        user refl (omega arith) junk name tail size short in
    (
      _,
      _,
      init_packet-sent junk name c socket on short chars,
      s₂,
      ap
            (λ r.
              r
              >>= on_receive i (length (room_enter_sent junk name (c.index % 5 + 1)))
                  (room_enter_sent junk name (c.index % 5 + 1) ++ tail))
            first
          ∙ second,
      last,
    )
