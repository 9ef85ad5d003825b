-- ===== src/Legacy/Manager/Take.antt =====
-- `CreateClient` of ChattingServer_v1.0/ChattingServer/ClientManager.h: the client that it takes from
-- the pool.
use tcp_socket_chatting_serv.Base.{
  ℕ, ◌-◌, ◌*◌, ◌≤◌, ◌<◌, ◌≡◌, ◌≢◌, refl, sym, ap, ◌⊎◌, inl, inr, false, Bool-cases, List, [], ◌∷◌,
  ◌++◌, append-nil, length, length-append, fill, ◌==◌, ==_iff, arith, ok,
}
use tcp_socket_chatting_serv.Containers.Laws.{ne_of_test}
use tcp_socket_chatting_serv.Legacy.Slots.{range, length-range}
use tcp_socket_chatting_serv.Legacy.User.{new_user}
use tcp_socket_chatting_serv.Legacy.Manager.{ClientManager, grow, min, pop_empty, get_empty_client}
use tcp_socket_chatting_serv.Legacy.Manager.Pool.{IsPool, grow-IsPool}

-- The pool `m₁` with the first of its free clients taken, where `m` may have had to grow.
abbrev pub Taken : ℕ → ClientManager → Type 0
Taken n m =
    (m₁ : ClientManager) × (i : ℕ) × (rest : List ℕ) × (k : ℕ) × (get_empty_client m
      ≡ ok (record m₁ { empty_clients = rest }, i))
    × IsPool n m₁
    × (m₁.empty_clients ≡ i ∷ rest)
    × (m₁.client_infos ≡ m.client_infos ++ fill k new_user)
    × (m₁.client_count ≡ m.client_count)
    × (m₁.max_client_count ≡ m.max_client_count)
    × ((k ≡ 0) ⊎ (m.client_count ≡ m.current_capacity))

==_ne : (a b : ℕ) → a ≢ b → (a == b) ≡ false
==_ne a b h = ground arith

list_front : (xs : List ℕ) → 1 ≤ length xs → (i : ℕ) × (rest : List ℕ) × (xs ≡ i ∷ rest)
list_front [] h = absurd (omega arith)
list_front (x ∷ xs) h = (x, xs, refl)

min-above : (a b : ℕ) → 1 ≤ a → a < b → 1 ≤ min (a * 2) b - a
min-above a b lo hi = ground arith

grow-length :
    (n : ℕ) (m : ClientManager)
    → IsPool n m
    → m.client_count ≡ m.current_capacity
    → m.client_count ≢ m.max_client_count
    → 1 ≤ length (grow m).empty_clients
unfolding grow
grow-length n m p full below = omega (
  arith,
  length-append m.empty_clients (range m.current_capacity more),
  length-range m.current_capacity more,
  min-above m.current_capacity m.max_client_count p.least at_most,
)
  where
    more : ℕ
    more = min (m.current_capacity * 2) m.max_client_count - m.current_capacity

    at_most : m.current_capacity < m.max_client_count
    at_most = omega (arith, p.most, full, below)

-- The front of a queue that is not empty is taken.
pop_empty_lem :
    (m₁ : ClientManager)
    → 1 ≤ length m₁.empty_clients
    → (i : ℕ) × (rest : List ℕ) × (m₁.empty_clients ≡ i ∷ rest)
      × (pop_empty m₁ m₁.empty_clients ≡ ok (record m₁ { empty_clients = rest }, i))
unfolding pop_empty
pop_empty_lem m₁ h =
    let (i, rest, e) = list_front m₁.empty_clients h in (i, rest, e, ap (pop_empty m₁) e)

pub take_client :
    (n : ℕ) (m : ClientManager)
    → IsPool n m
    → m.client_count ≢ m.max_client_count
    → (n ≡ 0) ⊎ (1 ≤ length m.empty_clients)
    → Taken n m
unfolding get_empty_client
take_client n m p below some_free = elim (Bool-cases (m.client_count == m.current_capacity)) [
  | inl full ↦
      let all : m.client_count ≡ m.current_capacity = (==_iff _ _).0 full in
      let (i, rest, e, popped) = pop_empty_lem (grow m) (grow-length n m p all below) in
      (
        grow m,
        i,
        rest,
        min (m.current_capacity * 2) m.max_client_count - m.current_capacity,
        rw (==_ne _ _ below, full) popped,
        grow-IsPool n m p,
        e,
        unfold grow in refl,
        unfold grow in refl,
        unfold grow in refl,
        inr all,
      )
  | inr more ↦
      let (i, rest, e, popped) = pop_empty_lem m (some_left some_free more) in
      (
        m,
        i,
        rest,
        0,
        rw (==_ne _ _ below, more) popped,
        p,
        e,
        unfold fill in sym (append-nil m.client_infos),
        refl,
        refl,
        inl refl,
      )
]
  where
    some_left :
        (n ≡ 0) ⊎ (1 ≤ length m.empty_clients)
        → (m.client_count == m.current_capacity) ≡ false
        → 1 ≤ length m.empty_clients
    some_left (inl none_lost) more =
        omega (arith, p.total, none_lost, ne_of_test m.client_count m.current_capacity more)
    some_left (inr there) more = there
