-- ===== src/Legacy/Manager/Pool.antt =====
-- The pool of ChattingServer_v1.0/ChattingServer/ClientManager.h: the clients that are free, and the
-- numbers that are kept of them.
use tcp_socket_chatting_serv.Base.{
  ℕ, zero, suc, ◌+◌, ◌-◌, ◌*◌, ◌/◌, ◌^◌, ◌≤◌, ◌<◌, ◌≡◌, ◌≢◌, refl, ◌∙◌, true, false, List, [], ◌∷◌,
  ◌++◌, none, some, All, All-append, subst, length, length-append, length-fill, fill, get_elem?,
  get_elem?-append_fill, if◌then◌else◌, arith,
}
use tcp_socket_chatting_serv.Containers.Laws.{All-map}
use tcp_socket_chatting_serv.Legacy.Slots.{
  range, set_at, Distinct, get_elem?-set_at_ne, get_elem?-append, get_elem?-lt, length-range,
  Distinct-append_range, All-range,
}
use tcp_socket_chatting_serv.Legacy.User.{UserInfo, new_user, is_connected, has_socket}
use tcp_socket_chatting_serv.Legacy.Manager.{ClientManager, new_manager, min, grow}

-- A client that is there and has no socket.
abbrev pub Free : List UserInfo → ℕ → Type 0
Free infos i = (u : UserInfo) × (get_elem? infos i ≡ some u) × (u.socket ≡ none)

-- How many clients have a socket.
unfoldable pub connected_count : List UserInfo → ℕ
connected_count [] = 0
connected_count (u ∷ infos) = (if is_connected u then 1 else 0) + connected_count infos

-- `lost` counts the clients that were taken, and neither counted nor given back.
pub record IsPool (lost : ℕ) (m : ClientManager) : Type 0 where
  pub size : length m.client_infos ≡ m.current_capacity
  pub most : m.current_capacity ≤ m.max_client_count
  pub least : 1 ≤ m.current_capacity
  pub bound : m.max_client_count ≤ 2 ^ 30
  pub free : All (Free m.client_infos) m.empty_clients
  pub distinct : Distinct m.empty_clients
  pub total : m.client_count + length m.empty_clients + lost ≡ m.current_capacity
  pub counted : connected_count m.client_infos ≤ m.client_count

connected_count-append :
    (xs ys : List UserInfo) → connected_count (xs ++ ys) ≡ connected_count xs + connected_count ys
unfolding connected_count
connected_count-append [] ys = omega arith
connected_count-append (x ∷ xs) ys = omega (arith, connected_count-append xs ys)

new_user-off : is_connected new_user ≡ false
unfolding is_connected new_user has_socket
new_user-off = refl

connected_count-fill : (n : ℕ) → connected_count (fill n new_user) ≡ 0
unfolding connected_count fill
connected_count-fill zero = refl
connected_count-fill (suc n) = rw new_user-off (omega (arith, connected_count-fill n))

abbrev pub weight : UserInfo → ℕ
weight u = if is_connected u then 1 else 0

pub connected_count-set_at :
    (i : ℕ) (u v : UserInfo) (xs : List UserInfo)
    → get_elem? xs i ≡ some u
    → connected_count (set_at i v xs) + weight u ≡ connected_count xs + weight v
unfolding connected_count set_at
connected_count-set_at i u v [] h = cc
connected_count-set_at zero u v (x ∷ xs) h =
    let same : x ≡ u = ground arith in rw same (omega arith)
connected_count-set_at (suc i) u v (x ∷ xs) h = omega (arith, connected_count-set_at i u v xs h)

-- A client that is assigned to leaves the others free.
pub Free-set_at :
    (infos : List UserInfo) (i : ℕ) (v : UserInfo) (es : List ℕ)
    → All (λ j. i ≢ j) es
    → All (Free infos) es
    → All (Free (set_at i v infos)) es
Free-set_at infos i v [] other free = tt
Free-set_at infos i v (e ∷ es) (ne, other) ((u, there, off), free) =
    ((u, get_elem?-set_at_ne i e v infos ne ∙ there, off), Free-set_at infos i v es other free)

-- A client with a socket is not free.
pub not-Free :
    (infos : List UserInfo) (i : ℕ) (u : UserInfo) (es : List ℕ)
    → get_elem? infos i ≡ some u
    → is_connected u ≡ true
    → All (Free infos) es
    → All (λ j. j ≢ i) es
unfolding is_connected has_socket
not-Free infos i u [] there on free = tt
not-Free infos i u (e ∷ es) there on ((v, at, off), free) =
    (λ same. cc, not-Free infos i u es there on free)

-- New clients are free.
Free-new : (xs : List UserInfo) (n : ℕ) → All (Free (xs ++ fill n new_user)) (range (length xs) n)
Free-new xs n =
    All-range _ (length xs) n
      (λ i l h. (new_user, get_elem?-append_fill xs n i new_user l h, unfold new_user in refl))

-- The free clients stay so when new ones are made.
Free-append : (xs ys : List UserInfo) (es : List ℕ) → All (Free xs) es → All (Free (xs ++ ys)) es
Free-append xs ys es =
    All-map _ _ es (λ i (u, there, off). (u, get_elem?-append xs ys i u there, off))

Free-lt : (xs : List UserInfo) (es : List ℕ) → All (Free xs) es → All (λ i. i < length xs) es
Free-lt xs es = All-map _ _ es (λ i (u, there, off). get_elem?-lt xs i u there)

min-bounds : (a b c : ℕ) → c ≤ a → c ≤ b → (c ≤ min a b) × (min a b ≤ b)
min-bounds a b c l h = ground arith

pub new_manager-IsPool : (max : ℕ) → 4 ≤ max → max ≤ 2 ^ 30 → IsPool 0 (new_manager max)
unfolding new_manager
new_manager-IsPool max lo hi = record {
  size = length-fill (max / 4) new_user;
  most = omega arith;
  least = omega arith;
  bound = hi;
  free = Free-new [] (max / 4);
  distinct = Distinct-append_range [] 0 (max / 4) tt tt;
  total = omega (arith, length-range 0 (max / 4));
  counted = omega (arith, connected_count-fill (max / 4));
}

-- New clients, where all are counted or lost: the pool has more of them.
pub grow-IsPool : (n : ℕ) (m : ClientManager) → IsPool n m → IsPool n (grow m)
unfolding grow
grow-IsPool n m p = record {
  size = length-append m.client_infos _ ∙ omega (arith, length-fill more new_user, p.size, bounds);
  most = bounds.1;
  least = omega (arith, p.least, bounds);
  bound = p.bound;
  free = All-append _ m.empty_clients _ (Free-append m.client_infos _ m.empty_clients p.free) (
      subst (λ k. All (Free (m.client_infos ++ fill more new_user)) (range k more)) p.size
        (Free-new m.client_infos more));
  distinct = Distinct-append_range m.empty_clients m.current_capacity more p.distinct (
      subst (λ k. All (λ i. i < k) m.empty_clients) p.size
        (Free-lt m.client_infos m.empty_clients p.free));
  total = omega (
    arith,
    length-append m.empty_clients (range m.current_capacity more),
    length-range m.current_capacity more,
    p.total,
    bounds,
  );
  counted = omega (
    arith,
    connected_count-append m.client_infos (fill more new_user),
    connected_count-fill more,
    p.counted,
  );
}
  where
    capacity : ℕ
    capacity = min (m.current_capacity * 2) m.max_client_count

    more : ℕ
    more = capacity - m.current_capacity

    bounds : (m.current_capacity ≤ capacity) × (capacity ≤ m.max_client_count)
    bounds = min-bounds _ _ m.current_capacity (omega arith) p.most
