-- ===== src/Legacy/Client.antt =====
-- ChattingServer_v1.0/ChattingClient/IOCPClient.cpp and Position.h: the client, its nickname, its way
-- from the lobby to a room.
use tcp_socket_chatting_serv.Base.{
  ℕ, ◌+◌, ◌-◌, Bool, true, false, List, [], ◌∷◌, ◌++◌, Option, none, some, take, drop, length, leb,
  ltb, ◌==◌, ◌||◌, if◌then◌else◌, Result, ok, ◌>>◌, guard, out_of_range,
}
use tcp_socket_chatting_serv.Bytes.{le_bytes, from_le}
use tcp_socket_chatting_serv.Stream.{splice}
use tcp_socket_chatting_serv.Containers.{contains}
use tcp_socket_chatting_serv.Legacy.Packets.{server_enter, room_enter, nickname_already_exist}

-- `sent` is what the socket took, one entry for each `send`.
pub record ChatClient : Type 0 where
  pub nickname : List ℕ
  pub room : ℕ
  pub is_worker_run : Bool
  pub sent : List (List ℕ)

-- `send`, which takes the bytes if `sends` says so of the number of sends before; else the threads end.
unfoldable pub send_bytes : (ℕ → Bool) → List ℕ → ChatClient → ChatClient × Bool
send_bytes sends bytes c =
    if sends (length c.sent)
    then (record c { sent = c.sent ++ bytes ∷ [] }, true)
    else (record c { is_worker_run = false }, false)

-- A name as it stands in the 32 bytes of a packet on the stack, which held `junk`.
unfoldable pub name_field : List ℕ → List ℕ → List ℕ
name_field junk nickname = splice 0 (nickname ++ 0 ∷ []) junk

-- A `SYSTEM_PACKET`, as much of it as is sent.
unfoldable pub system_bytes : ℕ → List ℕ → List ℕ
system_bytes action nickname =
    le_bytes 2 (length nickname + 1) ++ (le_bytes 2 action ++ (nickname ++ 0 ∷ []))

unfoldable pub room_enter_bytes : List ℕ → List ℕ → ℕ → List ℕ
unfolding name_field
room_enter_bytes junk nickname room_no =
    le_bytes 2 (length nickname + 1)
    ++ (le_bytes 2 room_enter ++ (name_field junk nickname ++ le_bytes 4 room_no))

pub data NicknameMessage : Type 0 where
  disconnected too_long already_exist trim_needed create_success : NicknameMessage

-- The answer to a name: `junk` is what the 15 bytes of its buffer held.
unfoldable pub check_answer :
    List ℕ → List ℕ → Option (List ℕ) → ChatClient → Result (ChatClient × NicknameMessage)
check_answer junk nickname none c = ok (record c { is_worker_run = false }, disconnected)
check_answer junk nickname (some answer) c = do
  guard (ltb (length answer) 15) out_of_range
  let recved = splice 0 (answer ++ 0 ∷ []) junk
  ok (
      if from_le (take 4 (drop 4 recved)) == nickname_already_exist
      then (c, already_exist)
      else (record c { nickname = nickname }, create_success))

-- `NicknameCheck`, with whether the send succeeds and what `recv` gives, nothing where the connection
-- is over.
unfoldable pub nickname_check :
    List ℕ
    → (ℕ → Bool)
    → Option (List ℕ)
    → List ℕ
    → ChatClient
    → Result (ChatClient × NicknameMessage)
unfolding send_bytes system_bytes check_answer
nickname_check junk sends answer nickname c =
    if leb 31 (length nickname)
    then ok (c, too_long)
    else if contains b' ' nickname
    then ok (c, trim_needed)
    else (let (c', success) = send_bytes sends (system_bytes server_enter nickname) c in
        if success then check_answer junk nickname answer c' else ok (c', disconnected))

-- `Position::LobbyControl`: the pointer to a room, and what is returned.
abbrev pub max_room_count : ℕ
max_room_count = 5

unfoldable pub lobby_control : ℕ → ℕ → ℕ × ℕ
lobby_control input room_ptr =
    if input == 13
    then (room_ptr, room_ptr)
    else if input == 80
    then (if ltb room_ptr max_room_count then room_ptr + 1 else room_ptr, 0)
    else if input == 72
    then (if ltb 1 room_ptr then room_ptr - 1 else room_ptr, 0)
    else (room_ptr, 0)

-- A key that `getch` gives: one of two halves, the first 224, or any other.
pub data LobbyKey : Type 0 where
  arrow_key plain_key : (key : ℕ) → LobbyKey

-- The second half of an arrow key, of which there are two that count.
unfoldable pub move_pointer : ℕ → ℕ → ℕ
unfolding lobby_control
move_pointer key room_ptr =
    if (key == 80) || (key == 72) then (lobby_control key room_ptr).0 else room_ptr

-- The keys of `Lobby`, up to the enter key that chooses a room.
unfoldable pub choose_room : ℕ → List LobbyKey → Option ℕ
unfolding lobby_control move_pointer
choose_room room_ptr [] = none
choose_room room_ptr (arrow_key key ∷ keys) = choose_room (move_pointer key room_ptr) keys
choose_room room_ptr (plain_key key ∷ keys) =
    let rest = choose_room room_ptr keys in
    if key == 13 then some (lobby_control key room_ptr).1 else rest

-- `Lobby` once a room is chosen.
unfoldable pub lobby_enter : List ℕ → (ℕ → Bool) → ℕ → ChatClient → ChatClient × Bool
unfolding send_bytes room_enter_bytes
lobby_enter junk sends room_no c =
    let (c', success) = send_bytes sends (room_enter_bytes junk c.nickname room_no) c in
    if success then (record c' { room = room_no }, true) else (c', false)
