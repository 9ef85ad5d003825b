-- ===== src/Server/World.antt =====
-- The objects of ChattingServer_v1.1/ChattingServer (Session.h, ChatUser.h, Room.h, Package.h) and
-- the state that its managers share. A `User*` is the address of the user; a `Session*` is that of the
-- user that holds the session. A `Room*` is the room's number: rooms are never deleted.
use tcp_socket_chatting_serv.Base.{
  ℕ, ◌-◌, ◌^◌, Bool, true, not, List, [], ◌∷◌, ◌++◌, Option, none, some, ◌==◌, if◌then◌else◌,
  Result, ok, or_fault, null_pointer, dangling, ◌>>=◌,
}
use tcp_socket_chatting_serv.Packet.Types.{Packet}

abbrev pub invalid_socket : ℕ
invalid_socket = 2 ^ 64 - 1

pub record Session : Type 0 where
  pub socket : ℕ
  pub user_id : ℕ

-- `IsConnected`.
unfoldable pub is_connected : Session → Bool
is_connected s = not (s.socket == invalid_socket)

pub record User : Type 0 where
  pub session : Session
  pub user_id : ℕ
  pub curr_room : Option ℕ
  pub nickname : List ℕ

pub record Room : Type 0 where
  pub room_id : ℕ
  pub room_name : List ℕ
  pub users : List ℕ

-- `RecvPackage` and `SendPackage`, with their nullable pointers.
pub record RecvPackage : Type 0 where
  pub session : Option ℕ
  pub packet : Option Packet

pub record SendPackage : Type 0 where
  pub session : Option ℕ
  pub packet : Option Packet

-- The fields of `UserManager`, `RoomManager`, `SendServer`, `LogicProcess` and the run flag of the
-- workers; `heap` holds the users that were not deleted, `closed` the sockets given to
-- `closesocket`, and `sent` what was handed to `WSASend`, by socket.
pub record World : Type 0 where
  pub heap : ℕ → Option User
  pub user_list : List (ℕ × ℕ)
  pub user_id : ℕ
  pub room_list : List (ℕ × Room)
  pub room_id : ℕ
  pub user_in_lobby : List ℕ
  pub packages : List SendPackage
  pub send_run : Bool
  pub job_queue : List RecvPackage
  pub process_run : Bool
  pub worker_run : Bool
  pub closed : List ℕ
  pub sent : List (ℕ × List ℕ)

-- The state that the constructors leave.
unfoldable pub start : World
start = record {
  heap = λ p. none;
  user_list = [];
  user_id = 1;
  room_list = [];
  room_id = 1;
  user_in_lobby = [];
  packages = [];
  send_run = true;
  job_queue = [];
  process_run = true;
  worker_run = true;
  closed = [];
  sent = [];
}

-- A call through a pointer that may be null.
abbrev pub non_null {ℓ} : {A : Type ℓ} → Option A → Result A
non_null = or_fault null_pointer

-- The user at an address.
unfoldable pub deref : World → ℕ → Result User
deref w p = or_fault dangling (w.heap p)

unfoldable pub update : (ℕ → Option User) → ℕ → Option User → ℕ → Option User
update heap p u q = if q == p then u else heap q

-- The user at an address is changed.
unfoldable pub put_user : World → ℕ → User → World
put_user w p u = record w { heap = update w.heap p (some u) }

-- `delete user`.
unfoldable pub delete_user : World → ℕ → World
delete_user w p = record w { heap = update w.heap p none }

-- `Session::Close`. It leaves the socket's number in place.
unfoldable pub close : World → Session → World
close w s = record w { closed = if is_connected s then w.closed ++ s.socket ∷ [] else w.closed }

-- `User::EnterRoom` and `User::ExitRoom`; their tests of `IsInLobby` do nothing.
unfoldable pub user_enter : World → ℕ → ℕ → Result World
user_enter w p rid = do u ← deref w p; ok (put_user w p (record u { curr_room = some rid }))

unfoldable pub user_exit : World → ℕ → Result World
user_exit w p = do u ← deref w p; ok (put_user w p (record u { curr_room = none }))

-- `SendServer::PushPackage`.
unfoldable pub push_package : World → SendPackage → World
push_package w pkg = record w { packages = w.packages ++ pkg ∷ [] }
