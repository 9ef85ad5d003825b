-- ===== src/Legacy/Manager/Lost.antt =====
-- A client of the pool of ChattingServer_v1.0/ChattingServer/ClientManager.h that `CreateClient` takes
-- and does not give back.
use tcp_socket_chatting_serv.Base.{
  ℕ, suc, ◌+◌, ◌^◌, ◌≤◌, ◌<◌, ◌≡◌, ◌≢◌, refl, sym, inl, inr, true, false, List, [], ◌∷◌, length,
  arith, Result, ok, fault, out_of_range, ◌>>=◌,
}
use tcp_socket_chatting_serv.Legacy.Manager.{ClientManager, create_client}
use tcp_socket_chatting_serv.Legacy.Manager.Pool.{IsPool}
use tcp_socket_chatting_serv.Legacy.Manager.Create.{
  create_client-Serves, create_client_refused, Kept,
}
use tcp_socket_chatting_serv.Legacy.Manager.Empty.{create_client_empty}
use tcp_socket_chatting_serv.Legacy.Manager.Reach.{Reach, Reach-IsPool}

-- Clients that connect one after the other.
unfoldable pub accept_clients : List ℕ → ClientManager → Result ClientManager
accept_clients [] m = ok m
accept_clients (socket ∷ sockets) m = do
  (m', _) ← create_client socket true true m
  accept_clients sockets m'

-- A capacity that is kept, with clients lost.
same_capacity :
    (n : ℕ) (m m' : ClientManager)
    → IsPool n m
    → 1 ≤ n
    → Kept m m'
    → m'.current_capacity ≡ m.current_capacity
same_capacity n m m' p lost (_, inl same) = same
same_capacity n m m' p lost (_, inr full) = absurd (omega (arith, p.total, full))

no_entries : (xs : List ℕ) → length xs ≡ 0 → xs ≡ []
no_entries [] h = refl
no_entries (x ∷ xs) h = absurd (omega arith)

-- As many clients as are free are taken, and then none is free.
accept_clients_lem :
    (n : ℕ) (sockets : List ℕ) (m : ClientManager)
    → IsPool n m
    → 1 ≤ n
    → length sockets ≡ length m.empty_clients
    → (m' : ClientManager) × (accept_clients sockets m ≡ ok m')
      × IsPool n m'
      × (m'.empty_clients ≡ [])
unfolding accept_clients
accept_clients_lem n [] m p lost all = (m, refl, p, no_entries _ (sym all))
accept_clients_lem n (socket ∷ sockets) m p lost all =
    let below : m.client_count ≢ m.max_client_count = λ e. omega (arith, p.total, p.most, e) in
    let (m₁, e, p₁, _, count, kept) =
      create_client-Serves n m socket p below (inr (omega (arith, all))) in
    let (m', e', p', none_free) =
      accept_clients_lem n sockets m₁ p₁ lost
        (omega (arith, all, p.total, p₁.total, count, same_capacity n m m₁ p lost kept)) in
    (m', rw e e', p', none_free)

-- In a pool of version 1.0 for 4 to 2^30 clients, whatever came before: once a client's first
-- receive fails, and as many other clients come as are left free, the next one makes the server
-- read the front of an empty queue, while the count is below the maximum.
pub lost_client :
    (max n socket after : ℕ) (sockets : List ℕ) (m : ClientManager)
    → 4 ≤ max
    → max ≤ 2 ^ 30
    → Reach max n m
    → length sockets + 1 ≡ length m.empty_clients
    → (m₁ : ClientManager) × (m₂ : ClientManager) × (create_client socket true false m
        ≡ ok (m₁, false))
      × (accept_clients sockets m₁ ≡ ok m₂)
      × (m₂.client_count < m₂.max_client_count)
      × (create_client after true true m₂ ≡ fault out_of_range)
lost_client max n socket after sockets m lo hi r all =
    let p : IsPool n m = Reach-IsPool max n m lo hi r in
    let below : m.client_count ≢ m.max_client_count = λ e. omega (arith, p.total, p.most, e, all) in
    let (m₁, e, p₁, count, kept) =
      create_client_refused n m socket p below (inr (omega (arith, all))) in
    let some_left : m.client_count ≢ m.current_capacity = λ e. omega (arith, p.total, e, all) in
    let (m₂, e', p₂, none_free) =
      accept_clients_lem (suc n) sockets m₁ p₁ (omega arith)
        (omega (arith, all, p.total, p₁.total, count, kept_of m₁ kept some_left)) in
    (
      m₁,
      m₂,
      e,
      e',
      omega (arith, p₂.total, p₂.most),
      create_client_empty (suc n) m₂ after true true p₂ (omega arith) none_free,
    )
  where
    kept_of :
        (m₁ : ClientManager)
        → Kept m m₁
        → m.client_count ≢ m.current_capacity
        → m₁.current_capacity ≡ m.current_capacity
    kept_of m₁ (_, inl same) away = same
    kept_of m₁ (_, inr full) away = absurd (away full)
