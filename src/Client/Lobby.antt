-- ===== src/Client/Lobby.antt =====
-- ChattingServer_v1.1/ChattingClient/LobbyDisplay.h: the list of rooms with a cursor. What is only
-- printed is left out.
pub mod Cursor
use tcp_socket_chatting_serv.Base.{
  ℕ, ◌+◌, ◌-◌, ◌%◌, ◌^◌, Bool, List, [], length, get_elem?, leb, ltb, ◌==◌, if◌then◌else◌, Result,
  ok, fault, or_fault, out_of_range,
}
use tcp_socket_chatting_serv.Containers.{map_set, map_erase}

abbrev pub lower_limit : ℕ
lower_limit = 4

-- `cursor_index` is the bit pattern of a `short`.
pub record LobbyDisplay : Type 0 where
  pub cursor_index : ℕ
  pub chat_rooms : List (List ℕ)
  pub chat_room_ids : List ℕ
  pub users : List (ℕ × List ℕ)
  pub my_id : ℕ

unfoldable pub new_lobby : ℕ → LobbyDisplay
new_lobby id = record {
  cursor_index = lower_limit;
  chat_rooms = [];
  chat_room_ids = [];
  users = [];
  my_id = id;
}

-- `UpdatePlayer` and `RemovePlayer`.
unfoldable pub update_user : LobbyDisplay → ℕ → List ℕ → LobbyDisplay
update_user d id name = record d { users = map_set id name d.users }

unfoldable pub remove_user : LobbyDisplay → ℕ → LobbyDisplay
remove_user d pid = record d { users = map_erase pid d.users }

unfoldable pub set_room_list : LobbyDisplay → List ℕ → List (List ℕ) → LobbyDisplay
set_room_list d ids names = record d { chat_room_ids = ids; chat_rooms = names }

-- A `short` is below zero.
unfoldable pub is_negative : ℕ → Bool
is_negative c = leb (2 ^ 15) c

-- `min(cursor, upper)` and `max(cursor, lower)`, as a `short` again.
unfoldable pub min_short : ℕ → ℕ → ℕ
unfolding is_negative
min_short c upper = if is_negative c then c else if ltb c upper then c else upper % 2 ^ 16

unfoldable pub max_short : ℕ → ℕ → ℕ
unfolding is_negative
max_short c lower = if is_negative c then lower else if ltb lower c then c else lower

unfoldable pub cursor_down : LobbyDisplay → LobbyDisplay
unfolding min_short
cursor_down d = record d {
  cursor_index = min_short ((d.cursor_index + 1) % 2 ^ 16) (lower_limit + length d.chat_rooms);
}

unfoldable pub cursor_up : LobbyDisplay → LobbyDisplay
unfolding max_short
cursor_up d = record d {
  cursor_index = max_short ((d.cursor_index + 2 ^ 16 - 1) % 2 ^ 16) lower_limit;
}

-- An element of the vector of ids, by the difference of the cursor and the limit.
unfoldable pub id_at : LobbyDisplay → ℕ → Result ℕ
unfolding is_negative
id_at d c =
    if is_negative c
    then fault out_of_range
    else if ltb c lower_limit
    then fault out_of_range
    else or_fault out_of_range (get_elem? d.chat_room_ids (c - lower_limit))

-- A `short` that is compared with a `size_t`: the sign goes on to 64 bits.
unfoldable pub size_of_short : ℕ → ℕ
unfolding is_negative
size_of_short c = if is_negative c then c + (2 ^ 64 - 2 ^ 16) else c

-- `GetSelection`: the line behind the rooms is that for a new one.
unfoldable pub get_selection : LobbyDisplay → Result ℕ
unfolding id_at size_of_short
get_selection d =
    if size_of_short d.cursor_index == length d.chat_rooms + lower_limit
    then ok 0
    else id_at d d.cursor_index
