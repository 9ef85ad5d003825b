-- ===== src/Stress/Clients.antt =====
-- ChattingServer_v1.0/StressServer/ClientInfo.h, ClientInfo.cpp, StressServer.h and StressServer.cpp:
-- the clients, and the rounds of the threads that connect them and let them talk. `junk` is what the
-- names of a packet on the stack held before.
use tcp_socket_chatting_serv.Base.{
  ℕ, ◌+◌, ◌%◌, Bool, true, false, not, ◌&&◌, List, [], ◌∷◌, ◌++◌, Option, none, some, take, length,
  leb, get_elem?, ◌==◌, if◌then◌else◌, Result, ok, ◌>>=◌, ◌>>◌, guard, or_fault, out_of_range,
  divided_by_zero,
}
use tcp_socket_chatting_serv.Bytes.{le_bytes}
use tcp_socket_chatting_serv.Legacy.Packets.{server_enter, room_enter, until_nul}
use tcp_socket_chatting_serv.Legacy.Client.{name_field}

-- `sent` is what the socket took, one entry for each `WSASend`.
pub record StressClient : Type 0 where
  pub index : ℕ
  pub socket : Option ℕ
  pub nickname : List ℕ
  pub sent : List (List ℕ)

unfoldable pub new_client : ℕ → StressClient
new_client index = record { index = index; socket = none; nickname = []; sent = [] }

-- `Close`, with `Initialize`.
unfoldable pub close : StressClient → StressClient
close c = record c { socket = none }

unfoldable pub has_socket : Option ℕ → Bool
has_socket none = false
has_socket (some socket) = true

unfoldable pub is_connected : StressClient → Bool
unfolding has_socket
is_connected c = has_socket c.socket

-- `BindRecv`, with whether `WSARecv` took the buffer.
unfoldable pub bind_recv : Bool → StressClient → StressClient × Bool
unfolding close
bind_recv recv_ok c = if recv_ok then (c, true) else (close c, false)

-- What the system answers to `socket`, `connect`, the bind to the completion port, and `WSARecv`.
pub record Answers : Type 0 where
  pub new_socket : Option ℕ
  pub connect_ok : Bool
  pub bind_ok : Bool
  pub recv_ok : Bool

unfoldable pub create : Answers → StressClient → StressClient
unfolding has_socket bind_recv
create a c =
    let created = record c { socket = a.new_socket } in
    let bound = (bind_recv a.recv_ok created).0 in
    if has_socket a.new_socket && a.connect_ok && a.bind_ok then bound else created

-- `SendMsg`: `WSASend` takes the bytes if `sends` says so of the number of sends before, and never
-- without a socket.
unfoldable pub send_msg : (ℕ → Bool) → List ℕ → StressClient → StressClient
unfolding is_connected close
send_msg sends bytes c =
    if is_connected c && sends (length c.sent)
    then record c { sent = c.sent ++ bytes ∷ [] }
    else close c

-- The `SERVER_ENTER_PACKET` and the `ROOM_ENTER_PACKET` on the stack, and as much of them as is sent.
unfoldable pub server_enter_packet : List ℕ → List ℕ → List ℕ
unfolding name_field
server_enter_packet junk name =
    le_bytes 2 (length name + 1) ++ (le_bytes 2 server_enter ++ name_field junk name)

unfoldable pub server_enter_sent : List ℕ → List ℕ → List ℕ
unfolding server_enter_packet
server_enter_sent junk name = take (length name + 1) (server_enter_packet junk name)

unfoldable pub room_enter_sent : List ℕ → List ℕ → ℕ → List ℕ
unfolding name_field
room_enter_sent junk name room =
    le_bytes 2 (length name) ++ (le_bytes 2 room_enter ++ (name_field junk name ++ le_bytes 4 room))

-- `InitPacket`: the name must fit in the packets with its NUL.
unfoldable pub init_packet : List ℕ → (ℕ → Bool) → List ℕ → StressClient → Result StressClient
unfolding send_msg server_enter_sent room_enter_sent
init_packet junk sends name c = do
  let text = until_nul name
  guard (leb (length text + 1) 32) out_of_range
  let entered = send_msg sends (server_enter_sent junk text) (record c { nickname = name })
  ok (send_msg sends (room_enter_sent junk text (c.index % 5 + 1)) entered)

-- The state of the generator. `clients` is `mClients`, `client_count` is `mClientCount`.
pub record StressServer : Type 0 where
  pub clients : List StressClient
  pub nicknames : List (List ℕ)
  pub contents : List (List ℕ)
  pub client_count : ℕ
  pub content_index : ℕ
  pub is_connecter_run : Bool
  pub is_worker_run : Bool
  pub is_sender_run : Bool

-- `names[mClientCount % names.size()]`; without names, a division by zero.
unfoldable pub name_for : ℕ → List (List ℕ) → Result (List ℕ)
name_for count names = do
  guard (not (length names == 0)) divided_by_zero
  or_fault out_of_range (get_elem? names (count % length names))

unfoldable pub create_client :
    List ℕ → (ℕ → Bool) → Answers → List (List ℕ) → StressServer → Result StressServer
unfolding name_for new_client create init_packet
create_client junk sends a names s = do
  let connected = create a (new_client (length s.clients))
  name ← name_for s.client_count names
  c ← init_packet junk sends name connected
  ok (record s { clients = s.clients ++ c ∷ []; client_count = s.client_count + 1 })
