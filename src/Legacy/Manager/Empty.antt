-- ===== src/Legacy/Manager/Empty.antt =====
-- `getEmptyClient` and `CreateClient` of ChattingServer_v1.0/ChattingServer/ClientManager.h where the
-- server is full, and where no client is free.
use tcp_socket_chatting_serv.Base.{
  ℕ, zero, suc, ◌+◌, ◌≤◌, ◌<◌, ◌≡◌, refl, ap, ◌∙◌, ◌⊎◌, inl, inr, Bool, true, false, List, [], ◌∷◌,
  some, Option-cases, length, get_elem?, ◌==◌, ==_iff, ==_refl, arith, ok, fault, out_of_range,
  ok_injective,
}
use tcp_socket_chatting_serv.Legacy.User.{UserInfo}
use tcp_socket_chatting_serv.Legacy.Manager.{
  ClientManager, pop_empty, get_empty_client, client_at, create_client,
}
use tcp_socket_chatting_serv.Legacy.Manager.Pool.{IsPool}

pub client_at-eq_ok :
    (m : ClientManager) (i : ℕ) (u : UserInfo)
    → client_at m i ≡ ok u
    → get_elem? m.client_infos i ≡ some u
unfolding client_at
client_at-eq_ok m i u e = elim (Option-cases (get_elem? m.client_infos i)) [
  | inl nobody ↦ absurd (ground (arith, nobody))
  | inr (v, there) ↦ there ∙ ap some (ok_injective v u (rw there at e))
]

-- A full server takes no client.
pub create_client_full :
    (socket : ℕ) (bound recv_ok : Bool) (m : ClientManager)
    → m.client_count ≡ m.max_client_count
    → create_client socket bound recv_ok m ≡ ok (m, false)
unfolding create_client get_empty_client
create_client_full socket bound recv_ok m full = rw (at_max, ==_refl m.max_client_count)
  where
    at_max : (m.client_count == m.max_client_count) ≡ true
    at_max = (==_iff _ _).1 full

-- With a client lost and none free, the empty queue is read.
pub create_client_empty :
    (n : ℕ) (m : ClientManager) (socket : ℕ) (bound recv_ok : Bool)
    → IsPool n m
    → 1 ≤ n
    → m.empty_clients ≡ []
    → create_client socket bound recv_ok m ≡ fault out_of_range
unfolding create_client get_empty_client pop_empty
create_client_empty n m socket bound recv_ok p lost none_free =
    rw (below_max, below_capacity, none_free)
  where
    total : m.client_count + n ≡ m.current_capacity
    total = omega (arith, p.total, ap (length {A = ℕ}) none_free)

    below_max : (m.client_count == m.max_client_count) ≡ false
    below_max =
        let lt : m.client_count < m.max_client_count = omega (arith, total, p.most) in ground arith

    below_capacity : (m.client_count == m.current_capacity) ≡ false
    below_capacity =
        let lt : m.client_count < m.current_capacity = omega (arith, total) in ground arith

List-cases : (xs : List ℕ) → (xs ≡ []) ⊎ (1 ≤ length xs)
List-cases [] = inl refl
List-cases (x ∷ xs) = inr (omega arith)

-- There is a free client, or no client is lost, where a client was created.
pub some_free :
    (n : ℕ) (m : ClientManager) (r : ClientManager × Bool) (socket : ℕ) (recv_ok : Bool)
    → IsPool n m
    → create_client socket true recv_ok m ≡ ok r
    → (n ≡ 0) ⊎ (1 ≤ length m.empty_clients)
some_free zero m r socket recv_ok p e = inl refl
some_free (suc n) m r socket recv_ok p e = elim (List-cases m.empty_clients) [
  | inl none_free ↦
      absurd
        (let f = create_client_empty (suc n) m socket true recv_ok p (omega arith) none_free in cc)
  | inr there ↦ inr there
]
