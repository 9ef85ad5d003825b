-- ===== src/Legacy/Process.antt =====
-- ChattingServer_v1.0/ChattingServer/PacketManager.h and PacketManager.hpp: what a packet queues, and
-- the thread that takes the queue.
use tcp_socket_chatting_serv.Base.{
  ℕ, Bool, true, List, [], ◌∷◌, ◌++◌, Option, none, some, drop, ◌==◌, if◌then◌else◌, Result, ok,
  ◌>>=◌,
}
use tcp_socket_chatting_serv.Legacy.User.{enter_room, exit_room}
use tcp_socket_chatting_serv.Legacy.Manager.{ClientManager, client_at, put_client}
use tcp_socket_chatting_serv.Legacy.Packets.{
  PacketInfo, SendType, uninitialized, multi, uni, broad, copied, packet_type, room_no,
  message_bytes, nickname_already_exist, nickname_created, nickname_not_found, server_enter,
  server_exit, room_enter, room_exit, chat_broadcast, chat_multicast, chat_unicast,
}
use tcp_socket_chatting_serv.Legacy.Cast.{
  find_nickname, name_client, uni_cast, broad_cast, multi_cast,
}

pub record Server : Type 0 where
  pub manager : ClientManager
  pub packet_queue : List PacketInfo
  pub is_worker_run : Bool

-- The queue holds copies.
unfoldable pub enqueue_packet : PacketInfo → Server → Server
unfolding copied
enqueue_packet p s = record s { packet_queue = s.packet_queue ++ copied p ∷ [] }

-- `PROCESS_SERVER_ENTER` by what the search for the name finds.
unfoldable pub answer_enter : PacketInfo → Option ℕ → Server → Result Server
unfolding enqueue_packet
answer_enter p none s = do
  m ← name_client p s.manager
  ok (
      enqueue_packet
        (record p { packet_data = message_bytes nickname_created; data_size = 8; send_type = uni })
        (record s { manager = m }))
answer_enter p (some i) s = ok (
    enqueue_packet
      (record p {
        packet_data = message_bytes nickname_already_exist;
        data_size = 8;
        send_type = uni;
      })
      s)

unfoldable pub process_server_enter : PacketInfo → Server → Result Server
unfolding answer_enter find_nickname
process_server_enter p s = answer_enter p (find_nickname s.manager (drop 4 p.packet_data)) s

-- `PROCESS_CHAT_UNICAST` by what the search for the receiver finds.
unfoldable pub answer_whisper : PacketInfo → Option ℕ → Server → Server
unfolding enqueue_packet copied
answer_whisper p none s =
    enqueue_packet
      (record p { send_type = uni; packet_data = message_bytes nickname_not_found; data_size = 8 })
      s
answer_whisper p (some i) s =
    let c = copied (record p { send_type = uni }) in
    enqueue_packet (record c { client_index = i }) (enqueue_packet c s)

unfoldable pub process_chat_unicast : PacketInfo → Server → Server
unfolding answer_whisper find_nickname
process_chat_unicast p s = answer_whisper p (find_nickname s.manager (drop 4 p.packet_data)) s

unfoldable pub process_server_exit : PacketInfo → Server → Server
unfolding enqueue_packet copied
process_server_exit p s =
    enqueue_packet (record (copied p) { send_type = multi; is_close = true }) s

unfoldable pub process_room_enter : PacketInfo → Server → Result Server
unfolding enqueue_packet copied client_at put_client
process_room_enter p s = do
  u ← client_at s.manager p.client_index
  let entered = record s {
    manager = put_client s.manager p.client_index (enter_room (room_no p.packet_data) u);
  }
  ok (enqueue_packet (record (copied p) { send_type = multi }) entered)

unfoldable pub process_room_exit : PacketInfo → Server → Result Server
unfolding enqueue_packet copied client_at put_client
process_room_exit p s = do
  u ← client_at s.manager p.client_index
  let left = record s { manager = put_client s.manager p.client_index (exit_room u) }
  ok (enqueue_packet (record (copied p) { send_type = multi }) left)

unfoldable pub process_chat_broadcast : PacketInfo → Server → Server
unfolding enqueue_packet copied
process_chat_broadcast p s = enqueue_packet (record (copied p) { send_type = broad }) s

unfoldable pub process_chat_multicast : PacketInfo → Server → Server
unfolding enqueue_packet copied
process_chat_multicast p s = enqueue_packet (record (copied p) { send_type = multi }) s

-- `ClassifyPacket`: the function that the map has for the packet's type, if any.
unfoldable pub classify_packet : PacketInfo → Server → Result Server
unfolding packet_type
classify_packet p s =
    let t = packet_type p.packet_data in
    if t == server_enter
    then process_server_enter p s
    else if t == server_exit
    then ok (process_server_exit p s)
    else if t == room_enter
    then process_room_enter p s
    else if t == room_exit
    then process_room_exit p s
    else if t == chat_broadcast
    then ok (process_chat_broadcast p s)
    else if t == chat_multicast
    then ok (process_chat_multicast p s)
    else if t == chat_unicast
    then ok (process_chat_unicast p s)
    else ok s

-- The cast that a packet taken from the queue calls for.
unfoldable pub cast_packet :
    (ℕ → Bool) → PacketInfo → SendType → ClientManager → Result ClientManager
cast_packet sends p broad m = broad_cast sends p m
cast_packet sends p multi m = multi_cast sends p m
cast_packet sends p uni m = uni_cast sends p m
cast_packet sends p uninitialized m = ok m

-- A round of `Run`.
unfoldable pub run_front : (ℕ → Bool) → List PacketInfo → Server → Result Server
unfolding cast_packet
run_front sends [] s = ok s
run_front sends (p ∷ rest) s =
    if p.data_size == 0 then ok (record s { packet_queue = rest }) else (do
      m ← cast_packet sends p p.send_type s.manager
      ok (record s { manager = m; packet_queue = rest }))

unfoldable pub run_packet : (ℕ → Bool) → Server → Result Server
unfolding run_front
run_packet sends s = run_front sends s.packet_queue s
