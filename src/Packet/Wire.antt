-- ===== src/Packet/Wire.antt =====
-- ClientPacket.h and ServerPacket.h: the virtual functions `encode` and `decode` of each class.
use Prim.Native.Nat.{ℕ, zero, suc}
use tcp_socket_chatting_serv.Base.{List, [], ◌∷◌, ◌++◌, Result, ok, ◌>>=◌}
use tcp_socket_chatting_serv.Stream.{Stream, write_int, write_str, read_int, read_str}
use tcp_socket_chatting_serv.Packet.Types.{
  code, Packet, type, count16, pk_c_server_enter, pk_c_room_enter, pk_c_broadcast, pk_c_multicast,
  pk_c_unicast, pk_c_room_create, pk_s_server_enter_ok, pk_s_lobby_room_info, pk_s_lobby_user_info,
  pk_s_lobby_enter, pk_s_room_enter, pk_s_room_exit, pk_s_room_name, pk_s_broadcast, pk_s_multicast,
  pk_s_unicast_ok,
}

-- `stream << (packet_header_size)this->type()`, an `int32_t`.
unfoldable pub write_type : Packet → Stream → Stream
write_type p s = write_int 4 (code (type p)) s

-- The loops over a vector of numbers of `w` bytes, and over a vector of strings.
unfoldable pub write_ids : ℕ → List ℕ → Stream → Stream
write_ids w [] s = s
write_ids w (id ∷ ids) s = write_ids w ids (write_int w id s)

unfoldable pub write_names : List (List ℕ) → Stream → Stream
write_names [] s = s
write_names (name ∷ names) s = write_names names (write_str name s)

-- The fields, behind the type.
unfoldable pub write_fields : Packet → Stream → Stream
unfolding write_ids write_names count16
write_fields (pk_c_server_enter nickname) s = write_str nickname s
write_fields (pk_c_room_enter rid) s = write_int 2 rid s
write_fields (pk_c_broadcast text) s = write_str text s
write_fields (pk_c_multicast text) s = write_str text s
write_fields (pk_c_unicast recver text) s = write_str text (write_str recver s)
write_fields (pk_c_room_create name) s = write_str name s
write_fields (pk_s_server_enter_ok pid) s = write_int 4 pid s
write_fields (pk_s_lobby_room_info n ids names) s =
    write_names names (write_ids 2 ids (write_int 2 (count16 names) s))
write_fields (pk_s_lobby_user_info rooms n ids names) s =
    write_names names (write_ids 4 ids (write_int 2 (count16 names) (write_int 2 rooms s)))
write_fields (pk_s_lobby_enter uid nickname) s = write_str nickname (write_int 4 uid s)
write_fields (pk_s_room_enter uid name) s = write_str name (write_int 4 uid s)
write_fields (pk_s_room_exit uid) s = write_int 4 uid s
write_fields (pk_s_room_name name) s = write_str name s
write_fields (pk_s_broadcast nickname text) s = write_str text (write_str nickname s)
write_fields (pk_s_multicast nickname text) s = write_str text (write_str nickname s)
write_fields (pk_s_unicast_ok nickname text) s = write_str text (write_str nickname s)
write_fields p s = s

-- `encode`. It also sets the packet's count of names, as `counted` does.
unfoldable pub encode : Packet → Stream → Stream
unfolding write_type write_fields
encode p s = write_fields p (write_type p s)

-- The loops that read `n` numbers of `w` bytes into the local `id`, and `n` strings.
unfoldable pub read_ids : ℕ → ℕ → ℕ → List ℕ → Stream → Result (List ℕ × Stream)
read_ids zero w id ids s = ok (ids, s)
read_ids (suc n) w id ids s = do (id', s') ← read_int w id s; read_ids n w id' (ids ++ id' ∷ []) s'

unfoldable pub read_names : ℕ → List (List ℕ) → Stream → Result (List (List ℕ) × Stream)
read_names zero names s = ok (names, s)
read_names (suc n) names s = do (name, s') ← read_str s; read_names n (names ++ name ∷ []) s'

-- `PK_S_CAST::decode`: a nickname and a text.
unfoldable pub read_cast : (List ℕ → List ℕ → Packet) → Stream → Result (Packet × Stream)
read_cast pk s = do
  (nickname, s') ← read_str s
  (text, s'') ← read_str s'
  ok (pk nickname text, s'')

unfoldable pub read_text : (List ℕ → Packet) → Stream → Result (Packet × Stream)
read_text pk s = do (text, s') ← read_str s; ok (pk text, s')

unfoldable pub read_number : ℕ → ℕ → (ℕ → Packet) → Stream → Result (Packet × Stream)
read_number w old pk s = do (n, s') ← read_int w old s; ok (pk n, s')

-- A user's id and name.
unfoldable pub read_user : ℕ → (ℕ → List ℕ → Packet) → Stream → Result (Packet × Stream)
read_user old pk s = do
  (uid, s') ← read_int 4 old s
  (name, s'') ← read_str s'
  ok (pk uid name, s'')

unfoldable pub read_rooms : ℕ → ℕ → List ℕ → List (List ℕ) → Stream → Result (Packet × Stream)
unfolding read_ids read_names
read_rooms junk old ids names s = do
  (n, s₁) ← read_int 2 old s
  (ids', s₂) ← read_ids n 2 junk ids s₁
  (names', s₃) ← read_names n names s₂
  ok (pk_s_lobby_room_info n ids' names', s₃)

unfoldable pub read_users : ℕ → ℕ → ℕ → List ℕ → List (List ℕ) → Stream → Result (Packet × Stream)
unfolding read_ids read_names
read_users junk old_rooms old ids names s = do
  (rooms, s₁) ← read_int 2 old_rooms s
  (n, s₂) ← read_int 2 old s₁
  (ids', s₃) ← read_ids n 4 junk ids s₂
  (names', s₄) ← read_names n names s₃
  ok (pk_s_lobby_user_info rooms n ids' names', s₄)

-- `decode`, of a packet object that the factory made. `junk` is what a local that is not initialised
-- holds.
unfoldable pub decode : ℕ → Packet → Stream → Result (Packet × Stream)
unfolding read_cast read_text read_number read_user read_rooms read_users
decode junk (pk_c_server_enter nickname) s = read_text pk_c_server_enter s
decode junk (pk_c_room_enter rid) s = read_number 2 rid pk_c_room_enter s
decode junk (pk_c_broadcast text) s = read_text pk_c_broadcast s
decode junk (pk_c_multicast text) s = read_text pk_c_multicast s
decode junk (pk_c_unicast recver text) s = read_cast pk_c_unicast s
decode junk (pk_c_room_create name) s = read_text pk_c_room_create s
decode junk (pk_s_server_enter_ok pid) s = read_number 4 pid pk_s_server_enter_ok s
decode junk (pk_s_lobby_room_info n ids names) s = read_rooms junk n ids names s
decode junk (pk_s_lobby_user_info rooms n ids names) s = read_users junk rooms n ids names s
decode junk (pk_s_lobby_enter uid nickname) s = read_user uid pk_s_lobby_enter s
decode junk (pk_s_room_enter uid name) s = read_user uid pk_s_room_enter s
decode junk (pk_s_room_exit uid) s = read_number 4 uid pk_s_room_exit s
decode junk (pk_s_room_name name) s = read_text pk_s_room_name s
decode junk (pk_s_broadcast nickname text) s = read_cast pk_s_broadcast s
decode junk (pk_s_multicast nickname text) s = read_cast pk_s_multicast s
decode junk (pk_s_unicast_ok nickname text) s = read_cast pk_s_unicast_ok s
decode junk p s = ok (p, s)
