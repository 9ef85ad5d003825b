-- ===== src/Legacy/Manager/Reach.antt =====
-- The pool of ChattingServer_v1.0/ChattingServer/ClientManager.h in the course of the server: clients
-- that connect, and clients whose connection ends.
use tcp_socket_chatting_serv.Base.{
  ℕ, suc, ◌^◌, ◌≤◌, ◌≡◌, ◌≢◌, sym, ap, ◌∙◌, inl, inr, subst, Bool, true, false, Bool-cases, ◌==◌,
  ==_iff, Result, ok, fault,
}
use tcp_socket_chatting_serv.Containers.Laws.{ne_of_test}
use tcp_socket_chatting_serv.Legacy.Manager.{
  ClientManager, new_manager, create_client, close_client, drop_client,
}
use tcp_socket_chatting_serv.Legacy.Manager.Pool.{IsPool, new_manager-IsPool}
use tcp_socket_chatting_serv.Legacy.Manager.Create.{create_client-Serves, create_client_refused}
use tcp_socket_chatting_serv.Legacy.Manager.Empty.{create_client_full, some_free}
use tcp_socket_chatting_serv.Legacy.Manager.Close.{drops-IsPool, closes-IsPool}

-- What happens to the pool: a client connects; one connects whose first receive fails, while there is
-- room; a connection ends; a send to a client, or a receive of its, fails.
pub data Step : ℕ → ClientManager → ℕ → ClientManager → Type 0 where
  admits :
      {n : ℕ} {m m' : ClientManager} (socket : ℕ) (admitted : Bool)
      → create_client socket true true m ≡ ok (m', admitted)
      → Step n m n m'
  refuses :
      {n : ℕ} {m m' : ClientManager} (socket : ℕ) (admitted : Bool)
      → m.client_count ≢ m.max_client_count
      → create_client socket true false m ≡ ok (m', admitted)
      → Step n m (suc n) m'
  closes : {n : ℕ} {m m' : ClientManager} (i : ℕ) → close_client i m ≡ ok m' → Step n m n m'
  drops : {n : ℕ} {m m' : ClientManager} (i : ℕ) → drop_client i m ≡ ok m' → Step n m n m'

-- A pool that steps lead to from the start, with a number of clients whose first receive failed.
pub data Reach (max : ℕ) : ℕ → ClientManager → Type 0 where
  begins : Reach max 0 (new_manager max)
  next : {n n' : ℕ} {m m' : ClientManager} → Reach max n m → Step n m n' m' → Reach max n' m'

admits-IsPool :
    (n : ℕ) (m m' : ClientManager) (socket : ℕ) (admitted : Bool)
    → IsPool n m
    → create_client socket true true m ≡ ok (m', admitted)
    → IsPool n m'
admits-IsPool n m m' socket admitted p e =
    elim (Bool-cases (m.client_count == m.max_client_count)) [
      | inl full ↦
          let same = sym (create_client_full socket true true m ((==_iff _ _).0 full)) ∙ e in
          subst (IsPool n) (ap (λ (r : Result (ClientManager × Bool)). first r) same) p
      | inr below ↦
          let (m'', e', p', _, _, _) =
            create_client-Serves n m socket p (ne_of_test _ _ below)
              (some_free n m _ socket true p e) in
          subst (IsPool n) (ap first (sym e' ∙ e)) p'
    ]
  where
    first : Result (ClientManager × Bool) → ClientManager
    first (ok (m₀, b)) = m₀
    first (fault x) = m

refuses-IsPool :
    (n : ℕ) (m m' : ClientManager) (socket : ℕ) (admitted : Bool)
    → IsPool n m
    → m.client_count ≢ m.max_client_count
    → create_client socket true false m ≡ ok (m', admitted)
    → IsPool (suc n) m'
refuses-IsPool n m m' socket admitted p below e =
    let (m'', e', p', _, _) =
      create_client_refused n m socket p below (some_free n m _ socket false p e) in
    subst (IsPool (suc n)) (ap first (sym e' ∙ e)) p'
  where
    first : Result (ClientManager × Bool) → ClientManager
    first (ok (m₀, b)) = m₀
    first (fault x) = m

pub Reach-IsPool :
    (max n : ℕ) (m : ClientManager) → 4 ≤ max → max ≤ 2 ^ 30 → Reach max n m → IsPool n m
Reach-IsPool max n m lo hi begins = new_manager-IsPool max lo hi
Reach-IsPool max n m lo hi (next r (admits socket b e)) =
    admits-IsPool n _ m socket b (Reach-IsPool max n _ lo hi r) e
Reach-IsPool max n m lo hi (next r (refuses socket b below e)) =
    refuses-IsPool _ _ m socket b (Reach-IsPool max _ _ lo hi r) below e
Reach-IsPool max n m lo hi (next r (closes i e)) =
    closes-IsPool n i _ m (Reach-IsPool max n _ lo hi r) e
Reach-IsPool max n m lo hi (next r (drops i e)) =
    drops-IsPool n i _ m (Reach-IsPool max n _ lo hi r) e
