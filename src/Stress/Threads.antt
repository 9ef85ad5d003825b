-- ===== src/Stress/Threads.antt =====
-- ChattingServer_v1.0/StressServer/StressServer.cpp and StressServer.h: the rounds of the threads, and
-- the destructor.
use tcp_socket_chatting_serv.Base.{
  ℕ, ◌+◌, Bool, true, false, not, ◌&&◌, ◌||◌, List, [], ◌∷◌, ◌++◌, Option, none, some, take, length,
  leb, ltb, get_elem?, ◌==◌, if◌then◌else◌, Result, ok, ◌>>=◌, ◌>>◌, guard, or_fault, out_of_range,
}
use tcp_socket_chatting_serv.Bytes.{le_bytes}
use tcp_socket_chatting_serv.Legacy.Slots.{set_at}
use tcp_socket_chatting_serv.Legacy.User.{IoOperation, io_recv, io_send, io_close}
use tcp_socket_chatting_serv.Legacy.Packets.{chat_broadcast, chat_multicast, until_nul}
use tcp_socket_chatting_serv.Legacy.Client.{name_field}
use tcp_socket_chatting_serv.Stress.Csv.{parse_csv}
use tcp_socket_chatting_serv.Stress.Clients.{
  StressClient, close, is_connected, bind_recv, Answers, send_msg, StressServer, create_client,
}

-- The constructor, by what the two files hold, if they can be read.
unfoldable pub new_stress : Option (List ℕ) → Option (List ℕ) → StressServer
new_stress names texts = record {
  clients = [];
  nicknames = (parse_csv [] names).0;
  contents = (parse_csv [] texts).0;
  client_count = 0;
  content_index = 0;
  is_connecter_run = true;
  is_worker_run = true;
  is_sender_run = true;
}

-- `MAX_CLIENT`.
abbrev pub max_client : ℕ
max_client = 10000

-- A round of `ConnecterThread`.
unfoldable pub connecter_round : List ℕ → (ℕ → Bool) → Answers → StressServer → Result StressServer
connecter_round junk sends a s =
    if s.is_connecter_run && ltb s.client_count max_client
    then create_client junk sends a s.nicknames s
    else ok s

unfoldable pub client_at : StressServer → ℕ → Result StressClient
client_at s i = or_fault out_of_range (get_elem? s.clients i)

-- The `CHAT_PACKET` on the stack with a name and a text, neither of which has a NUL, as much of it as is
-- sent.
unfoldable pub chat_sent : List ℕ → ℕ → List ℕ → List ℕ → List ℕ
unfolding name_field
chat_sent junk action name content = take (32 + length content) (
    le_bytes 2 (32 + length content)
    ++ (le_bytes 2 action ++ (name_field junk name ++ (content ++ 0 ∷ []))))

-- A round of `SenderThread`: `cast_type` and `sender` are what `rand` gave, reduced.
unfoldable pub send_round : List ℕ → (ℕ → Bool) → ℕ → ℕ → StressServer → Result StressServer
unfolding client_at chat_sent
send_round junk sends cast_type sender s = do
  c ← client_at s sender
  content ← or_fault out_of_range (get_elem? s.contents s.content_index)
  let text = until_nul content
  guard (leb (length text + 1) 900) out_of_range
  let action = if cast_type == 0 then chat_broadcast else chat_multicast
  let sent = send_msg sends (chat_sent junk action (until_nul c.nickname) text) c
  let next = s.content_index + 1
  ok (record s {
    clients = set_at sender sent s.clients;
    content_index = if leb (length s.contents) next then 0 else next;
  })

unfoldable pub sender_round : List ℕ → (ℕ → Bool) → ℕ → ℕ → StressServer → Result StressServer
unfolding send_round
sender_round junk sends cast_type sender s =
    if s.is_sender_run && not (s.client_count == 0)
    then send_round junk sends cast_type sender s
    else ok s

-- What `GetQueuedCompletionStatus` gives.
pub record Completion : Type 0 where
  pub success : Bool
  pub io_size : ℕ
  pub index : ℕ
  pub overlapped : Option IoOperation

-- `Close` of a client, and the next receive.
unfoldable pub close_at : ℕ → StressServer → Result StressServer
unfolding client_at
close_at i s = do c ← client_at s i; ok (record s { clients = set_at i (close c) s.clients })

unfoldable pub bind_at : Bool → ℕ → StressServer → Result StressServer
unfolding client_at
bind_at recv_ok i s = do
  c ← client_at s i
  ok (record s { clients = set_at i (bind_recv recv_ok c).0 s.clients })

unfoldable pub completed : Completion → Bool → IoOperation → StressServer → Result StressServer
unfolding bind_at
completed c recv_ok io_recv s = bind_at recv_ok c.index s
completed c recv_ok io_send s = ok s
completed c recv_ok io_close s = ok s

unfoldable pub handle : Completion → Bool → Option IoOperation → StressServer → Result StressServer
unfolding completed close_at
handle c recv_ok none s =
    ok (if c.success && (c.io_size == 0) then record s { is_worker_run = false } else s)
handle c recv_ok (some operation) s =
    if not c.success || (c.io_size == 0)
    then close_at c.index s
    else completed c recv_ok operation s

-- A round of `WorkerThread`.
unfoldable pub worker_round : Completion → Bool → StressServer → Result StressServer
unfolding handle
worker_round c recv_ok s = if s.is_worker_run then handle c recv_ok c.overlapped s else ok s

-- The loop of the destructor.
unfoldable pub close_clients : List StressClient → List StressClient
close_clients [] = []
close_clients (c ∷ clients) = (if is_connected c then close c else c) ∷ close_clients clients
