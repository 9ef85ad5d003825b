-- ===== src/Client/Room.antt =====
-- ChattingServer_v1.1/ChattingClient/RoomDisplay.h: the screen of a room. The console is the list of
-- the messages printed so far, each with its row; the input box is redrawn and not kept.
use tcp_socket_chatting_serv.Base.{
  ℕ, ◌+◌, ◌*◌, ◌%◌, ◌^◌, List, [], ◌∷◌, ◌++◌, Option, none, some, Result, ok, fault, wrong_type,
}
use tcp_socket_chatting_serv.Containers.{lookup, map_set, map_erase}
use tcp_socket_chatting_serv.Packet.Types.{
  Packet, pk_s_multicast, pk_s_broadcast, pk_s_unicast_ok, pk_s_unicast_no,
}

-- The messages. A cast has the attribute that `SetColor` computes: text + background * 16.
pub data Message : Type 0 where
  entered exited : (name : List ℕ) → Message
  no_user : Message
  cast : (color : ℕ) (nickname text : List ℕ) → Message

-- The cursors are bit patterns of `short`s.
pub record RoomDisplay : Type 0 where
  pub input_cursor : ℕ
  pub output_cursor : ℕ
  pub room_name : List ℕ
  pub users : List (ℕ × List ℕ)
  pub my_id : ℕ
  pub my_nickname : List ℕ
  pub messages : List (ℕ × Message)

unfoldable pub new_room : ℕ → List ℕ → RoomDisplay
new_room id nickname = record {
  input_cursor = 7;
  output_cursor = 6;
  room_name = [];
  users = [];
  my_id = id;
  my_nickname = nickname;
  messages = [];
}

unfoldable pub set_room_name : RoomDisplay → List ℕ → RoomDisplay
set_room_name d name = record d { room_name = name }

-- `gotoxy(0, outputCursor_++)`, a message, and `UpdateInputBox`.
unfoldable pub print : RoomDisplay → Message → RoomDisplay
print d m = record d {
  messages = d.messages ++ (d.output_cursor, m) ∷ [];
  output_cursor = (d.output_cursor + 1) % 2 ^ 16;
  input_cursor = (d.input_cursor + 1) % 2 ^ 16;
}

-- `UpdatePlayer` with `EnterMessage`.
unfoldable pub update_player : RoomDisplay → ℕ → List ℕ → RoomDisplay
unfolding print
update_player d uid name = print (record d { users = map_set uid name d.users }) (entered name)

-- `RemovePlayer` with `ExitMessage`: a number that is not there passes by.
unfoldable pub remove_found : RoomDisplay → ℕ → Option (List ℕ) → RoomDisplay
unfolding print
remove_found d uid none = d
remove_found d uid (some name) =
    let d' = print d (exited name) in record d' { users = map_erase uid d'.users }

unfoldable pub remove_player : RoomDisplay → ℕ → RoomDisplay
unfolding remove_found
remove_player d uid = remove_found d uid (lookup uid d.users)

-- `OnRecv`. A packet of another class is read as if it were a `PK_S_CAST`.
unfoldable pub on_recv : RoomDisplay → Packet → Result RoomDisplay
unfolding print
on_recv d pk_s_unicast_no = ok (print d no_user)
on_recv d (pk_s_multicast nickname text) = ok (print d (cast 15 nickname text))
on_recv d (pk_s_broadcast nickname text) = ok (print d (cast (4 + 14 * 16) nickname text))
on_recv d (pk_s_unicast_ok nickname text) = ok (print d (cast 2 nickname text))
on_recv d packet = fault wrong_type
