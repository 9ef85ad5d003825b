-- ===== src/Legacy/Messages.antt =====
-- ChattingServer_v1.0/ChattingClient/IOCPClient.cpp, `processSendMsg`: what a typed line sends. `junk`
-- is what the names of a packet on the stack held before.
use tcp_socket_chatting_serv.Base.{
  ℕ, zero, suc, ◌+◌, ◌-◌, Bool, List, [], ◌∷◌, ◌++◌, Option, none, some, take, drop, length, leb,
  ltb, str_eq, if◌then◌else◌, Result, ok, ◌>>=◌, ◌>>◌, guard, out_of_range,
}
use tcp_socket_chatting_serv.Bytes.{le_bytes}
use tcp_socket_chatting_serv.Client.Commands.{starts_with, find, quit_command, lobby_command}
use tcp_socket_chatting_serv.Legacy.Packets.{
  server_exit, room_exit, chat_broadcast, chat_multicast, chat_unicast, until_nul,
}
use tcp_socket_chatting_serv.Legacy.Client.{ChatClient, send_bytes, name_field, system_bytes}

-- `eAction` of a send that failed.
abbrev pub uninitialized_action : ℕ
uninitialized_action = 0

-- A `CHAT_PACKET`, as much of it as is sent.
unfoldable pub chat_bytes : List ℕ → ℕ → List ℕ → List ℕ → List ℕ
unfolding name_field
chat_bytes junk action nickname content =
    le_bytes 2 (32 + length content) ++ (le_bytes 2 action ++ (name_field junk nickname ++ content))

-- `BroadCast` and `MultiCast`, which differ in the type: the content must fit in the packet.
unfoldable pub send_chat_packet :
    List ℕ → (ℕ → Bool) → ℕ → List ℕ → ChatClient → Result (ChatClient × Bool)
unfolding send_bytes chat_bytes
send_chat_packet junk sends action content c = do
  guard (leb (length content) 900) out_of_range
  ok (send_bytes sends (chat_bytes junk action c.nickname content) c)

-- The loop of `splitContent`, on fuel: each round takes 600 bytes off the content.
unfoldable pub split_from : ℕ → List ℕ → List (List ℕ)
split_from zero content = []
split_from (suc fuel) [] = []
split_from (suc fuel) (x ∷ content) =
    take 600 (x ∷ content) ∷ split_from fuel (drop 600 (x ∷ content))

unfoldable pub split_content : List ℕ → List (List ℕ)
unfolding split_from
split_content content = if ltb 600 (length content) then split_from (length content) content else []

-- The sends of the parts of a line, up to the first that fails.
unfoldable pub send_parts :
    List ℕ → (ℕ → Bool) → ℕ → List (List ℕ) → ChatClient → Result (ChatClient × ℕ)
unfolding send_chat_packet
send_parts junk sends action [] c = ok (c, action)
send_parts junk sends action (part ∷ parts) c = do
  (c', success) ← send_chat_packet junk sends action part c
  if success then send_parts junk sends action parts c' else ok (c', uninitialized_action)

-- `"/전체 "` in the encoding of the source, code page 949.
abbrev pub everyone_command : List ℕ
everyone_command = b'/' ∷ 192 ∷ 252 ∷ 195 ∷ 188 ∷ b' ' ∷ []

-- `substr(6)` of the first part.
unfoldable pub strip_first : List (List ℕ) → List (List ℕ)
strip_first [] = []
strip_first (part ∷ parts) = drop 6 part ∷ parts

-- The parts of a line to all, and of one to the room.
unfoldable pub broadcast_parts : List ℕ → List (List ℕ)
unfolding split_content strip_first
broadcast_parts content =
    if ltb 600 (length content) then strip_first (split_content content) else drop 6 content ∷ []

unfoldable pub multicast_parts : List ℕ → List (List ℕ)
unfolding split_content
multicast_parts content = if ltb 600 (length content) then split_content content else content ∷ []

-- A line for one user, by its first space: the name, and the text.
unfoldable pub whisper_parts : List ℕ → Option ℕ → List ℕ × List ℕ
whisper_parts content none = (drop 1 content, content)
whisper_parts content (some pos) = (take (pos - 1) (drop 1 content), drop (pos + 1) content)

-- A `UNICAST_PACKET`, as much of it as is sent: name and text must fit with their NUL.
unfoldable pub send_whisper :
    List ℕ → (ℕ → Bool) → List ℕ → List ℕ → ChatClient → Result (ChatClient × ℕ)
unfolding send_bytes name_field until_nul
send_whisper junk sends recver content c = do
  guard (ltb (length content) 900) out_of_range
  guard (ltb (length recver) 32) out_of_range
  let text = until_nul content
  let (c', success) =
      send_bytes sends
        (le_bytes 2 (length text)
          ++ (le_bytes 2 chat_unicast
              ++ (name_field junk recver ++ (name_field junk c.nickname ++ text))))
        c
  ok (c', if success then chat_unicast else uninitialized_action)

unfoldable pub send_system : (ℕ → Bool) → ℕ → ChatClient → ChatClient × ℕ
unfolding send_bytes system_bytes
send_system sends action c =
    let (c', success) = send_bytes sends (system_bytes action c.nickname) c in
    (c', if success then action else uninitialized_action)

-- `processSendMsg`.
unfoldable pub process_send_msg :
    List ℕ → (ℕ → Bool) → List ℕ → ChatClient → Result (ChatClient × ℕ)
unfolding send_system send_parts broadcast_parts multicast_parts whisper_parts send_whisper
process_send_msg junk sends content c =
    if str_eq content quit_command
    then ok (send_system sends server_exit c)
    else if str_eq content lobby_command
    then ok (send_system sends room_exit (record c { room = 0 }))
    else if starts_with everyone_command content
    then send_parts junk sends chat_broadcast (broadcast_parts content) c
    else if starts_with (b'/' ∷ []) content
    then (let (recver, text) = whisper_parts content (find b' ' content) in
        send_whisper junk sends recver text c)
    else send_parts junk sends chat_multicast (multicast_parts content) c
