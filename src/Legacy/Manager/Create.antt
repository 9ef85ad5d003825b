-- ===== src/Legacy/Manager/Create.antt =====
-- `CreateClient` of ChattingServer_v1.0/ChattingServer/ClientManager.h, with a client that connects and
-- with one whose first receive fails.
use tcp_socket_chatting_serv.Base.{
  ℕ, suc, ◌+◌, ◌%◌, ◌^◌, ◌≤◌, ◌<◌, ◌≡◌, ◌≢◌, refl, ap, ◌∙◌, ◌⊎◌, inl, inr, subst, true, false,
  Bool-cases, List, ◌∷◌, ◌++◌, none, some, All, length, length-append, length-fill, fill, ◌==◌,
  arith, ok,
}
use tcp_socket_chatting_serv.Legacy.Slots.{
  set_at, Distinct, length-set_at, get_elem?-lt, All-contains-false,
}
use tcp_socket_chatting_serv.Legacy.User.{
  UserInfo, new_user, is_connected, has_socket, close, connect, bind_recv,
}
use tcp_socket_chatting_serv.Legacy.Manager.{
  ClientManager, client_at, put_client, count_client, create_client,
}
use tcp_socket_chatting_serv.Legacy.Manager.Pool.{
  Free, IsPool, connected_count, connected_count-set_at, weight, Free-set_at,
}
use tcp_socket_chatting_serv.Legacy.Manager.Take.{take_client}

-- A client that had no socket has this one, and the others are as they were, but for new ones.
abbrev pub Serves : List UserInfo → List UserInfo → ℕ → Type 0
Serves infos infos' socket =
    (i : ℕ) × (k : ℕ) × (u : UserInfo) × Free (infos ++ fill k new_user) i
    × (u.socket ≡ some socket)
    × (infos' ≡ set_at i u (infos ++ fill k new_user))

-- The pool has no new clients, or it needed them.
abbrev pub Kept : ClientManager → ClientManager → Type 0
Kept m m' =
    (m'.max_client_count ≡ m.max_client_count)
    × ((m'.current_capacity ≡ m.current_capacity) ⊎ (m.client_count ≡ m.current_capacity))

pub weight_off : (u : UserInfo) → u.socket ≡ none → weight u ≡ 0
unfolding is_connected has_socket
weight_off u off = rw off

weight_le : (u : UserInfo) → weight u ≤ 1
weight_le u = elim (Bool-cases (is_connected u)) [
  | inl on ↦ rw on (omega arith)
  | inr off ↦ rw off (omega arith)
]

module _ (n : ℕ) (m₁ : ClientManager) (i : ℕ) (rest : List ℕ) (p : IsPool n m₁)
    (front : m₁.empty_clients ≡ i ∷ rest) (u' : UserInfo) where
  front-Free : Free m₁.client_infos i
  front-Free = (subst (All (Free m₁.client_infos)) front p.free).0

  rest-Free : All (Free (set_at i u' m₁.client_infos)) rest
  rest-Free =
      let (_, free) = subst (All (Free m₁.client_infos)) front p.free in
      let (fresh, _) = subst Distinct front p.distinct in
      Free-set_at m₁.client_infos i u' rest (All-contains-false i rest fresh) free

  rest-Distinct : Distinct rest
  rest-Distinct = (subst Distinct front p.distinct).1

  more_connected :
      connected_count (set_at i u' m₁.client_infos) ≡ connected_count m₁.client_infos + weight u'
  more_connected =
      let (u, there, off) = front-Free in
      omega (arith, connected_count-set_at i u u' m₁.client_infos there, weight_off u off)

  index_lt : i < m₁.max_client_count
  index_lt =
      let (u, there, off) = front-Free in
      omega (arith, get_elem?-lt m₁.client_infos i u there, p.size, p.most)

  index_ne : (i == m₁.max_client_count) ≡ false
  index_ne = let lt : i < m₁.max_client_count = index_lt in ground arith

  counted-IsPool : IsPool n (record m₁ {
    empty_clients = rest;
    client_infos = set_at i u' m₁.client_infos;
    client_count = (m₁.client_count + 1) % 2 ^ 32;
  })
  counted-IsPool = record {
    size = length-set_at i u' m₁.client_infos ∙ p.size;
    most = p.most;
    least = p.least;
    bound = p.bound;
    free = rest-Free;
    distinct = rest-Distinct;
    total = omega (arith, p.total, ap (length {A = ℕ}) front, p.bound, p.most);
    counted = omega (
      arith,
      more_connected,
      weight_le u',
      p.counted,
      p.total,
      ap (length {A = ℕ}) front,
      p.bound,
      p.most,
    );
  }

  lost-IsPool :
      weight u' ≡ 0
      → IsPool
          (suc n)
          (record m₁ { empty_clients = rest; client_infos = set_at i u' m₁.client_infos })
  lost-IsPool off = record {
    size = length-set_at i u' m₁.client_infos ∙ p.size;
    most = p.most;
    least = p.least;
    bound = p.bound;
    free = rest-Free;
    distinct = rest-Distinct;
    total = omega (arith, p.total, ap (length {A = ℕ}) front);
    counted = omega (arith, more_connected, off, p.counted);
  }

module _ (n : ℕ) (m : ClientManager) (socket : ℕ) (p : IsPool n m)
    (below : m.client_count ≢ m.max_client_count)
    (some_free : (n ≡ 0) ⊎ (1 ≤ length m.empty_clients)) where
  growth-Kept :
      (m₁ : ClientManager) (k : ℕ)
      → IsPool n m₁
      → m₁.client_infos ≡ m.client_infos ++ fill k new_user
      → (k ≡ 0) ⊎ (m.client_count ≡ m.current_capacity)
      → (m₁.current_capacity ≡ m.current_capacity) ⊎ (m.client_count ≡ m.current_capacity)
  growth-Kept m₁ k p₁ infos (inl none_new) = inl (
      omega (
        arith,
        p.size,
        p₁.size,
        ap (length {A = UserInfo}) infos,
        length-append m.client_infos (fill k new_user),
        length-fill k new_user,
        none_new,
      ))
  growth-Kept m₁ k p₁ infos (inr full) = inr full

  pub create_client-Serves :
      (m' : ClientManager) × (create_client socket true true m ≡ ok (m', true))
      × IsPool n m'
      × Serves m.client_infos m'.client_infos socket
      × (m'.client_count ≡ m.client_count + 1)
      × Kept m m'
  unfolding create_client client_at put_client count_client connect bind_recv
  create_client-Serves =
      let (m₁, i, rest, k, e, p₁, front, infos, count, max, growth) =
        take_client n m p below some_free in
      let (u, there, off) = front-Free n m₁ i rest p₁ front new_user in
      let u' : UserInfo = record u { socket = some socket } in
      (
        record m₁ {
          empty_clients = rest;
          client_infos = set_at i u' m₁.client_infos;
          client_count = (m₁.client_count + 1) % 2 ^ 32;
        },
        rw (e, index_ne n m₁ i rest p₁ front new_user, there),
        counted-IsPool n m₁ i rest p₁ front u',
        (i, k, u', subst (λ l. Free l i) infos (u, there, off), refl, ap (set_at i u') infos),
        omega (arith, count, p₁.total, p₁.bound, p₁.most),
        (max, growth-Kept m₁ k p₁ infos growth),
      )

  pub create_client_refused :
      (m' : ClientManager) × (create_client socket true false m ≡ ok (m', false))
      × IsPool (suc n) m'
      × (m'.client_count ≡ m.client_count)
      × Kept m m'
  unfolding create_client client_at put_client count_client connect bind_recv close
  create_client_refused =
      let (m₁, i, rest, k, e, p₁, front, infos, count, max, growth) =
        take_client n m p below some_free in
      let (u, there, off) = front-Free n m₁ i rest p₁ front new_user in
      let u' : UserInfo = record u { socket = none } in
      (
        record m₁ { empty_clients = rest; client_infos = set_at i u' m₁.client_infos },
        rw (e, index_ne n m₁ i rest p₁ front new_user, there),
        lost-IsPool n m₁ i rest p₁ front u' (weight_off u' refl),
        count,
        (max, growth-Kept m₁ k p₁ infos growth),
      )
