-- ===== src/Legacy/Rows.antt =====
-- ChattingServer_v1.0/ChattingClient/Position.h: the rows of the screen of a room, and `RecvThread` of
-- IOCPClient.cpp, which prints on them. The console is the list of the lines printed so far, each with
-- its row; the input box is redrawn and not kept. Rows are bit patterns of `short`s.
pub mod Below
pub mod Shown
use mathlib.Core.Option
use tcp_socket_chatting_serv.Base.{
  ℕ, zero, suc, ◌+◌, ◌*◌, ◌%◌, ◌^◌, Bool, true, false, ◌&&◌, ◌||◌, List, [], ◌∷◌, ◌++◌, Option,
  none, some, take, drop, length, leb, ltb, fill, ◌==◌, if◌then◌else◌, Result, ok, ◌>>=◌, ◌>>◌,
  guard, out_of_range,
}
use tcp_socket_chatting_serv.Bytes.{from_le}
use tcp_socket_chatting_serv.Stream.{splice}
use tcp_socket_chatting_serv.Legacy.Packets.{
  server_exit, room_enter, room_exit, chat_broadcast, chat_multicast, chat_unicast, server_message,
  nickname_not_found, packet_type, c_str, name_at,
}
use tcp_socket_chatting_serv.Legacy.Client.{ChatClient}
use tcp_socket_chatting_serv.Legacy.Screen.{receive}

-- What is printed: the start of a text with its sender, a further piece of it, and the messages.
pub data Line : Type 0 where
  said : (color : ℕ) (nickname piece : List ℕ) → Line
  more : (color : ℕ) (piece : List ℕ) → Line
  entered exited : (nickname : List ℕ) → Line
  not_found : Line

-- `mSendPos.Y`, `mRecvPos.Y`, and the console.
pub record Rows : Type 0 where
  pub send_y : ℕ
  pub recv_y : ℕ
  pub lines : List (ℕ × Line)

-- `initialize`, as `EnterRoom` calls it once it has cleared the console.
unfoldable pub first_rows : Rows
first_rows = record { send_y = 20; recv_y = 6; lines = [] }

-- The attribute that `setColor` computes for an action: text + background * 16.
unfoldable pub color_of : ℕ → ℕ
color_of action =
    if action == chat_unicast
    then 2
    else if action == chat_broadcast
    then 4 + 14 * 16
    else if (action == server_exit) || ((action == room_enter) || (action == room_exit))
    then 15 + 6 * 16
    else 15

-- `mRecvPos.Y >= 20`, of a `short`.
unfoldable pub at_box : ℕ → Bool
at_box y = leb 20 y && ltb y (2 ^ 15)

-- `++mRecvPos.Y`, and the box below makes room.
unfoldable pub next_row : Rows → Rows
unfolding at_box
next_row r =
    let y = (r.recv_y + 1) % 2 ^ 16 in
    record r { recv_y = y; send_y = if at_box y then (r.send_y + 1) % 2 ^ 16 else r.send_y }

unfoldable pub print_line : Line → Rows → Rows
print_line line r = record r { lines = r.lines ++ (r.recv_y, line) ∷ [] }

-- The pieces of a text behind the first, each in a row of its own, and all of them.
unfoldable pub print_more : ℕ → List (List ℕ) → Rows → Rows
unfolding next_row print_line
print_more color [] r = r
print_more color (piece ∷ pieces) r =
    print_more color pieces (print_line (more color piece) (next_row r))

unfoldable pub print_said : ℕ → List ℕ → List (List ℕ) → Rows → Rows
unfolding print_more
print_said color nickname [] r = r
print_said color nickname (piece ∷ pieces) r =
    print_more color pieces (print_line (said color nickname piece) (next_row r))

-- `Receive`, with fuel for the loop over the pieces.
unfoldable pub receive_rows : ℕ → List ℕ → List ℕ → ℕ → Rows → Result (Option Rows)
unfolding print_said color_of
receive_rows fuel nickname content action r = do
  pieces ← receive fuel nickname content
  ok (Option.map (λ l. print_said (color_of action) nickname l r) pieces)

unfoldable pub room_message : List ℕ → ℕ → Rows → Rows
unfolding next_row print_line
room_message nickname action r =
    if action == room_enter
    then print_line (entered nickname) (next_row r)
    else if (action == server_exit) || (action == room_exit)
    then print_line (exited nickname) (next_row r)
    else next_row r

unfoldable pub show_message : ℕ → Rows → Rows
unfolding next_row print_line
show_message message r =
    if message == nickname_not_found then print_line not_found (next_row r) else r

-- The text of a `CHAT_PACKET`, copied by its `Length`, and that of a `UNICAST_PACKET`, copied up to its
-- NUL, over what `content` held: both arrays have 1024 bytes.
unfoldable pub copy_text : List ℕ → List ℕ → Result (List ℕ)
copy_text received content =
    let size = from_le (take 2 received) in
    guard (leb (36 + size) 1024) out_of_range
    >> ok (splice 0 (take size (drop 36 received)) content)

unfoldable pub copy_whisper : List ℕ → List ℕ → Result (List ℕ)
unfolding name_at
copy_whisper received content = do
  text ← name_at 68 received
  ok (splice 0 (text ++ 0 ∷ []) content)

-- `processRecvMsg`: the rows and `content`, or nothing where the loop over the pieces uses up its fuel.
unfoldable pub show_text :
    ℕ → ℕ → List ℕ → ℕ → Rows → Result (List ℕ) → Result (Option (Rows × List ℕ))
unfolding name_at c_str receive_rows
show_text fuel place received action r copy = do
  content ← copy
  nickname ← name_at place received
  text ← c_str content
  rows ← receive_rows fuel nickname text action r
  ok (Option.map (λ l. (l, content)) rows)

unfoldable pub show_room : List ℕ → ℕ → Rows → List ℕ → Result (Option (Rows × List ℕ))
unfolding name_at room_message
show_room received action r content = do
  nickname ← name_at 4 received
  ok (some (room_message nickname action r, content))

unfoldable pub process_recv_msg : ℕ → List ℕ → List ℕ → Rows → Result (Option (Rows × List ℕ))
unfolding packet_type copy_text copy_whisper show_text show_room show_message
process_recv_msg fuel received content r =
    let t = packet_type received in
    if (t == server_exit) || ((t == room_enter) || (t == room_exit))
    then show_room received t r content
    else if (t == chat_broadcast) || (t == chat_multicast)
    then show_text fuel 4 received t r (copy_text received content)
    else if t == chat_unicast
    then show_text fuel 36 received t r (copy_whisper received content)
    else if t == server_message
    then ok (some (show_message (from_le (take 4 (drop 4 received))) r, content))
    else ok (some (r, content))

-- What `RecvThread` does with what `recv` gave in a room, `none` for no bytes or an error: the array
-- was zeroed before, and the byte behind what came is set to NUL.
unfoldable pub recv_round :
    ℕ → Option (List ℕ) → List ℕ → Rows → ChatClient → Result (Option (Rows × List ℕ) × ChatClient)
unfolding process_recv_msg
recv_round fuel none content r c = ok (some (r, content), record c { is_worker_run = false })
recv_round fuel (some bytes) content r c = do
  guard (ltb (length bytes) 1024) out_of_range
  shown ← process_recv_msg fuel (splice 0 bytes (fill 1024 0)) content r
  ok (shown, c)
