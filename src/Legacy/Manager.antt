-- ===== src/Legacy/Manager.antt =====
-- ChattingServer_v1.0/ChattingServer/ClientManager.h: the pool of clients. A method is a step: the
-- accepter is the only thread that takes a client, and what the workers do in between is a step before.
pub mod Pool
pub mod Take
pub mod Create
pub mod Empty
pub mod Close
pub mod Reach
pub mod Admission
pub mod Lost
use tcp_socket_chatting_serv.Base.{
  ℕ, ◌+◌, ◌-◌, ◌*◌, ◌/◌, ◌%◌, ◌^◌, Bool, true, false, List, [], ◌∷◌, ◌++◌, fill, get_elem?, leb,
  ◌==◌, if◌then◌else◌, Result, ok, fault, out_of_range, or_fault, ◌>>=◌,
}
use tcp_socket_chatting_serv.Legacy.Slots.{range, set_at}
use tcp_socket_chatting_serv.Legacy.User.{
  IoOperation, UserInfo, new_user, is_connected, close, connect,
}

-- What `WSASend` was given for a client.
pub record Sent : Type 0 where
  pub receiver : ℕ
  pub bytes : List ℕ
  pub operation : IoOperation

-- `client_count` is an `int`, in two's complement. `next_id` is `stUserInfo::id`, `sent` what the
-- clients' sockets took.
pub record ClientManager : Type 0 where
  pub client_infos : List UserInfo
  pub empty_clients : List ℕ
  pub max_client_count : ℕ
  pub current_capacity : ℕ
  pub client_count : ℕ
  pub next_id : ℕ
  pub sent : List Sent

unfoldable pub new_manager : ℕ → ClientManager
new_manager max = record {
  client_infos = fill (max / 4) new_user;
  empty_clients = range 0 (max / 4);
  max_client_count = max;
  current_capacity = max / 4;
  client_count = 0;
  next_id = 1;
  sent = [];
}

abbrev pub min : ℕ → ℕ → ℕ
min a b = if leb a b then a else b

-- The half of `getEmptyClient` that makes new clients, up to twice as many and the maximum at most.
unfoldable pub grow : ClientManager → ClientManager
grow m =
    let capacity = min (m.current_capacity * 2) m.max_client_count in
    let more = capacity - m.current_capacity in
    record m {
      client_infos = m.client_infos ++ fill more new_user;
      empty_clients = m.empty_clients ++ range m.current_capacity more;
      current_capacity = capacity;
    }

-- `front` and `pop` of the queue; an empty queue has no front.
unfoldable pub pop_empty : ClientManager → List ℕ → Result (ClientManager × ℕ)
pop_empty m [] = fault out_of_range
pop_empty m (index ∷ rest) = ok (record m { empty_clients = rest }, index)

unfoldable pub get_empty_client : ClientManager → Result (ClientManager × ℕ)
unfolding grow pop_empty
get_empty_client m =
    if m.client_count == m.max_client_count
    then ok (m, m.max_client_count)
    else (let m' = if m.client_count == m.current_capacity then grow m else m in
        pop_empty m' m'.empty_clients)

-- `mClientInfos[index]`, read and assigned to.
unfoldable pub client_at : ClientManager → ℕ → Result UserInfo
client_at m index = or_fault out_of_range (get_elem? m.client_infos index)

unfoldable pub put_client : ClientManager → ℕ → UserInfo → ClientManager
put_client m index u = record m { client_infos = set_at index u m.client_infos }

-- `CreateClient` once `Connect` has returned.
unfoldable pub count_client : ClientManager → Bool → ClientManager × Bool
count_client m connected =
    if connected
    then (record m { client_count = (m.client_count + 1) % 2 ^ 32 }, true)
    else (m, false)

unfoldable pub create_client : ℕ → Bool → Bool → ClientManager → Result (ClientManager × Bool)
unfolding get_empty_client client_at put_client count_client
create_client socket bound recv_ok m = do
  (m', index) ← get_empty_client m
  if index == m'.max_client_count then ok (m', false) else (do
    u ← client_at m' index
    let (u', connected) = connect socket bound recv_ok u
    ok (count_client (put_client m' index u') connected))

-- `CloseClient`.
unfoldable pub close_client : ℕ → ClientManager → Result ClientManager
unfolding client_at put_client
close_client index m = do
  u ← client_at m index
  if is_connected u
      then ok (record (put_client m index (close u)) {
        empty_clients = m.empty_clients ++ index ∷ [];
        client_count = (m.client_count + (2 ^ 32 - 1)) % 2 ^ 32;
      })
      else ok m

-- `Close` of a client by itself, where a receive or a send of its fails.
unfoldable pub drop_client : ℕ → ClientManager → Result ClientManager
unfolding client_at put_client
drop_client index m = do u ← client_at m index; ok (put_client m index (close u))
