-- ===== src/Stress/Talk.antt =====
-- What the server of version 1.0 (ChattingServer_v1.0/ChattingServer) queues of the texts that the load
-- generator sends: `SenderThread` of ChattingServer_v1.0/StressServer/StressServer.cpp.
use tcp_socket_chatting_serv.Base.{
  ℕ, suc, ◌+◌, ◌-◌, ◌≤◌, ◌<◌, ◌≡◌, refl, ap, ◌∙◌, true, false, List, [], ◌∷◌, ◌++◌, some, take,
  length, take_past, take-front, le→leb, All, get_elem?, ◌==◌, arith, ok,
}
use tcp_socket_chatting_serv.Bytes.{le_bytes, from_le}
use tcp_socket_chatting_serv.Stream.Read.{IsChar}
use tcp_socket_chatting_serv.Legacy.Slots.{get_elem?-set_at}
use tcp_socket_chatting_serv.Legacy.Packets.{multi, chat_multicast, packet_type}
use tcp_socket_chatting_serv.Legacy.Process.{Server}
use tcp_socket_chatting_serv.Legacy.Threads.{on_receive}
use tcp_socket_chatting_serv.Legacy.Client.{name_field}
use tcp_socket_chatting_serv.Legacy.Names.{length-name_field, until_nul-chars}
use tcp_socket_chatting_serv.Stress.Clients.{
  StressClient, StressServer, send_msg, is_connected, has_socket,
}
use tcp_socket_chatting_serv.Legacy.Talk.{on_receive-multicast}
use tcp_socket_chatting_serv.Stress.Threads.{client_at, chat_sent, send_round, sender_round}

-- The `CHAT_PACKET` without the last four bytes of its text.
abbrev pub cut_packet : List ℕ → ℕ → List ℕ → List ℕ → List ℕ
cut_packet junk action name content =
    le_bytes 2 (32 + length content)
    ++ (le_bytes 2 action ++ (name_field junk name ++ take (length content - 4) content))

chat_sent-cut :
    (junk : List ℕ) (action : ℕ) (name content : List ℕ)
    → length junk ≡ 32
    → length name < 32
    → 4 ≤ length content
    → chat_sent junk action name content ≡ cut_packet junk action name content
unfolding chat_sent le_bytes name_field
chat_sent-cut junk action name content size short long =
    ap (λ n. take n (le_bytes 2 (32 + length content) ++ (le_bytes 2 action ++ body))) four
    ∙ ap (λ l. le_bytes 2 (32 + length content) ++ (le_bytes 2 action ++ l))
        (take_past k field (content ++ 0 ∷ [])
          ∙ ap (◌++◌ field) (take-front k content (0 ∷ []) (omega arith)))
  where
    k : ℕ
    k = length content - 4

    field : List ℕ
    field = name_field junk name

    body : List ℕ
    body = field ++ (content ++ 0 ∷ [])

    whole : length field ≡ 32
    whole = length-name_field junk name size short

    four : 32 + length content ≡ suc (suc (suc (suc (length field + k))))
    four = omega (arith, whole)

module _ (junk content : List ℕ) (cast_type sender socket : ℕ) (c : StressClient) (g : StressServer)
    (on : c.socket ≡ some socket) (fits : length content < 900) (run : g.is_sender_run ≡ true)
    (some_ : 0 < g.client_count) (there : get_elem? g.clients sender ≡ some c)
    (text : get_elem? g.contents g.content_index ≡ some content) (named : All IsChar c.nickname)
    (good : All IsChar content) where
  -- A round of the sender whose send is taken.
  sender_round-sends :
      (g' : StressServer) × (sender_round junk (λ _. true) (suc cast_type) sender g ≡ ok g')
      × (get_elem? g'.clients sender
          ≡ some
              (record c { sent = c.sent ++ chat_sent junk chat_multicast c.nickname content ∷ [] }))
  unfolding sender_round send_round client_at send_msg is_connected has_socket
  sender_round-sends =
      let nobody : (g.client_count == 0) ≡ false = ground arith in
      let other : (suc cast_type == 0) ≡ false = ground arith in
      rw
        (
          run,
          nobody,
          there,
          text,
          until_nul-chars content good,
          until_nul-chars c.nickname named,
          le→leb (length content + 1) 900 (omega arith),
          other,
          on,
        )
        (_, refl, get_elem?-set_at sender c _ g.clients there)

packet_type-cut :
    (junk : List ℕ) (name content tail : List ℕ)
    → packet_type (cut_packet junk chat_multicast name content ++ tail) ≡ chat_multicast
unfolding packet_type le_bytes from_le
packet_type-cut junk name content tail = refl

-- In a round of the load generator of version 1.0 for the room, where there is a text of 4 to 899
-- bytes and a connected client with a short name whose send is taken, and neither the text nor the
-- name has a NUL: what the client sends, and the server queues for the room once it arrives, lacks
-- the last four bytes of the text.
pub sender_round-short :
    (junk tail content : List ℕ) (cast_type sender socket i : ℕ) (c : StressClient)
    (g : StressServer) (s : Server)
    → length junk ≡ 32
    → c.socket ≡ some socket
    → length c.nickname < 32
    → 4 ≤ length content
    → length content < 900
    → g.is_sender_run ≡ true
    → 0 < g.client_count
    → get_elem? g.clients sender ≡ some c
    → get_elem? g.contents g.content_index ≡ some content
    → All IsChar c.nickname
    → All IsChar content
    → (bytes : List ℕ) × (bytes ≡ cut_packet junk chat_multicast c.nickname content)
      × (g' : StressServer) × (sender_round junk (λ _. true) (suc cast_type) sender g ≡ ok g')
      × (get_elem? g'.clients sender ≡ some (record c { sent = c.sent ++ bytes ∷ [] }))
      × (on_receive i (length bytes) (bytes ++ tail) s
          ≡ ok (record s {
            packet_queue =
                s.packet_queue
                ++ record {
                  client_index = i;
                  data_size = length bytes;
                  send_type = multi;
                  is_close = false;
                  packet_data = bytes;
                }
                  ∷ [];
          }))
sender_round-short junk tail content cast_type sender socket i c g s size on short long fits run
      some_ there text named good =
    let cut = chat_sent-cut junk chat_multicast c.nickname content size short long in
    let (g', round, sent) =
      sender_round-sends junk content cast_type sender socket c g on fits run some_ there text named
        good in
    (
      chat_sent junk chat_multicast c.nickname content,
      cut,
      g',
      round,
      sent,
      on_receive-multicast i _ tail s
          (ap (λ l. packet_type (l ++ tail)) cut ∙ packet_type-cut junk c.nickname content tail),
    )
