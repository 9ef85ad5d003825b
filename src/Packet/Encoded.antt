-- ===== src/Packet/Encoded.antt =====
-- The wire format, as a plain list of bytes, against `encode`.
use tcp_socket_chatting_serv.Base.{
  ℕ, ◌+◌, ◌≤◌, List, [], ◌∷◌, ◌++◌, append-nil, append_assoc, length, length-append, arith,
}
use tcp_socket_chatting_serv.Bytes.{le_bytes, length-le_bytes}
use tcp_socket_chatting_serv.Stream.{Stream, sock_buf_size, initialize, write_int, write_str}
use tcp_socket_chatting_serv.Stream.Write.{
  Holds, initialize-Holds, write_int-Holds, write_str-Holds,
}
use tcp_socket_chatting_serv.Packet.Types.{
  code, Packet, type, count16, pk_undefined, pk_c_server_enter, pk_c_room_enter, pk_c_broadcast,
  pk_c_multicast, pk_c_unicast, pk_c_room_create, pk_s_server_enter_ok, pk_s_lobby_room_info,
  pk_s_lobby_user_info, pk_s_lobby_enter, pk_s_room_enter, pk_s_room_exit, pk_s_room_name,
  pk_s_broadcast, pk_s_multicast, pk_s_unicast_ok,
}
use tcp_socket_chatting_serv.Packet.Wire.{write_type, write_ids, write_names, write_fields, encode}

-- A string on the wire, a vector of numbers of `w` bytes, and a vector of strings.
abbrev pub str_bytes : List ℕ → List ℕ
str_bytes value = value ++ 0 ∷ []

unfoldable pub ids_bytes : ℕ → List ℕ → List ℕ
ids_bytes w [] = []
ids_bytes w (id ∷ ids) = le_bytes w id ++ ids_bytes w ids

unfoldable pub names_bytes : List (List ℕ) → List ℕ
names_bytes [] = []
names_bytes (name ∷ names) = str_bytes name ++ names_bytes names

-- The bytes of a packet's fields.
unfoldable pub payload : Packet → List ℕ
payload (pk_c_server_enter nickname) = str_bytes nickname
payload (pk_c_room_enter rid) = le_bytes 2 rid
payload (pk_c_broadcast text) = str_bytes text
payload (pk_c_multicast text) = str_bytes text
payload (pk_c_unicast recver text) = str_bytes recver ++ str_bytes text
payload (pk_c_room_create name) = str_bytes name
payload (pk_s_server_enter_ok pid) = le_bytes 4 pid
payload (pk_s_lobby_room_info n ids names) =
    le_bytes 2 (count16 names) ++ (ids_bytes 2 ids ++ names_bytes names)
payload (pk_s_lobby_user_info rooms n ids names) =
    le_bytes 2 rooms ++ (le_bytes 2 (count16 names) ++ (ids_bytes 4 ids ++ names_bytes names))
payload (pk_s_lobby_enter uid nickname) = le_bytes 4 uid ++ str_bytes nickname
payload (pk_s_room_enter uid name) = le_bytes 4 uid ++ str_bytes name
payload (pk_s_room_exit uid) = le_bytes 4 uid
payload (pk_s_room_name name) = str_bytes name
payload (pk_s_broadcast nickname text) = str_bytes nickname ++ str_bytes text
payload (pk_s_multicast nickname text) = str_bytes nickname ++ str_bytes text
payload (pk_s_unicast_ok nickname text) = str_bytes nickname ++ str_bytes text
payload p = []

-- A packet on the wire: its type in four bytes, and its fields.
unfoldable pub wire : Packet → List ℕ
wire p = le_bytes 4 (code (type p)) ++ payload p

-- `f` writes the bytes `bs` to any stream that has room for them.
abbrev Writes : (Stream → Stream) → List ℕ → Type 0
Writes f bs =
    (s : Stream) (cs : List ℕ)
    → Holds s cs
    → length cs + length bs ≤ sock_buf_size
    → Holds (f s) (cs ++ bs)

none-Writes : Writes (λ s. s) []
none-Writes s cs h room = rw append-nil h

int-Writes : (w v : ℕ) → Writes (write_int w v) (le_bytes w v)
int-Writes w v s cs h room = write_int-Holds w v h (omega (arith, length-le_bytes w v))

str-Writes : (value : List ℕ) → Writes (write_str value) (str_bytes value)
str-Writes value s cs h room = write_str-Holds value h (omega (arith, length-append value (0 ∷ [])))

-- One write after another.
seq-Writes :
    (f g : Stream → Stream) (bs ds : List ℕ)
    → Writes f bs
    → Writes g ds
    → Writes (λ s. g (f s)) (bs ++ ds)
seq-Writes f g bs ds hf hg s cs h room = rw (← append_assoc cs bs ds) (
    hg (f s) (cs ++ bs) (hf s cs h (omega (arith, length-append bs ds)))
      (omega (arith, length-append bs ds, length-append cs bs)))

ids-Writes : (w : ℕ) (ids : List ℕ) → Writes (write_ids w ids) (ids_bytes w ids)
unfolding write_ids ids_bytes
ids-Writes w [] = none-Writes
ids-Writes w (id ∷ ids) =
    seq-Writes (write_int w id) (write_ids w ids) _ _ (int-Writes w id) (ids-Writes w ids)

names-Writes : (names : List (List ℕ)) → Writes (write_names names) (names_bytes names)
unfolding write_names names_bytes
names-Writes [] = none-Writes
names-Writes (name ∷ names) =
    seq-Writes (write_str name) (write_names names) _ _ (str-Writes name) (names-Writes names)

two-Writes :
    (value text : List ℕ)
    → Writes (λ s. write_str text (write_str value s)) (str_bytes value ++ str_bytes text)
two-Writes value text =
    seq-Writes (write_str value) (write_str text) _ _ (str-Writes value) (str-Writes text)

user-Writes :
    (uid : ℕ) (name : List ℕ)
    → Writes (λ s. write_str name (write_int 4 uid s)) (le_bytes 4 uid ++ str_bytes name)
user-Writes uid name =
    seq-Writes (write_int 4 uid) (write_str name) _ _ (int-Writes 4 uid) (str-Writes name)

list-Writes :
    (w n : ℕ) (ids : List ℕ) (names : List (List ℕ))
    → Writes
        (λ s. write_names names (write_ids w ids (write_int 2 n s)))
        (le_bytes 2 n ++ (ids_bytes w ids ++ names_bytes names))
list-Writes w n ids names =
    seq-Writes (write_int 2 n) (λ s. write_names names (write_ids w ids s)) _ _ (int-Writes 2 n)
      (seq-Writes (write_ids w ids) (write_names names) _ _ (ids-Writes w ids) (names-Writes names))

fields-Writes : (p : Packet) → Writes (write_fields p) (payload p)
unfolding write_fields payload
fields-Writes (pk_undefined t) = none-Writes
fields-Writes (pk_c_server_enter nickname) = str-Writes nickname
fields-Writes (pk_c_room_enter rid) = int-Writes 2 rid
fields-Writes (pk_c_broadcast text) = str-Writes text
fields-Writes (pk_c_multicast text) = str-Writes text
fields-Writes (pk_c_unicast recver text) = two-Writes recver text
fields-Writes (pk_c_room_create name) = str-Writes name
fields-Writes (pk_s_server_enter_ok pid) = int-Writes 4 pid
fields-Writes (pk_s_lobby_room_info n ids names) = list-Writes 2 (count16 names) ids names
fields-Writes (pk_s_lobby_user_info rooms n ids names) =
    seq-Writes (write_int 2 rooms) _ _ _ (int-Writes 2 rooms)
      (list-Writes 4 (count16 names) ids names)
fields-Writes (pk_s_lobby_enter uid nickname) = user-Writes uid nickname
fields-Writes (pk_s_room_enter uid name) = user-Writes uid name
fields-Writes (pk_s_room_exit uid) = int-Writes 4 uid
fields-Writes (pk_s_room_name name) = str-Writes name
fields-Writes (pk_s_broadcast nickname text) = two-Writes nickname text
fields-Writes (pk_s_multicast nickname text) = two-Writes nickname text
fields-Writes (pk_s_unicast_ok nickname text) = two-Writes nickname text
fields-Writes p = none-Writes

-- A packet whose bytes on the wire fit the stream is encoded as these bytes, with zeros behind
-- them.
pub encode-Holds :
    (p : Packet) → length (wire p) ≤ sock_buf_size → Holds (encode p initialize) (wire p)
unfolding encode wire
encode-Holds p room =
    seq-Writes (write_type p) (write_fields p) _ _ (int-Writes 4 (code (type p))) (fields-Writes p)
      initialize [] initialize-Holds (omega arith)
