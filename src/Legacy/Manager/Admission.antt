-- ===== src/Legacy/Manager/Admission.antt =====
-- Who is let in by `CreateClient` of ChattingServer_v1.0/ChattingServer/ClientManager.h.
use tcp_socket_chatting_serv.Base.{
  ℕ, ◌+◌, ◌^◌, ◌≤◌, ◌≡◌, refl, ◌⊎◌, inl, inr, true, false, Bool-cases, ◌==◌, ==_iff, ok,
}
use tcp_socket_chatting_serv.Containers.Laws.{ne_of_test}
use tcp_socket_chatting_serv.Legacy.Manager.{ClientManager, create_client}
use tcp_socket_chatting_serv.Legacy.Manager.Create.{Serves, create_client-Serves}
use tcp_socket_chatting_serv.Legacy.Manager.Empty.{create_client_full}
use tcp_socket_chatting_serv.Legacy.Manager.Reach.{Reach, Reach-IsPool}

-- In a pool of version 1.0 for 4 to 2^30 clients, once clients have come and gone and sends have
-- failed in any order, and no client's first receive has failed: a client who comes is refused if
-- the maximum is reached; else, with new clients made where they are needed, the socket goes to a
-- client that had none, and the count grows by one.
pub reachable-Serves :
    (max socket : ℕ) (m : ClientManager)
    → 4 ≤ max
    → max ≤ 2 ^ 30
    → Reach max 0 m
    → ((m.client_count ≡ m.max_client_count) × (create_client socket true true m ≡ ok (m, false)))
      ⊎ ((m' : ClientManager) × (create_client socket true true m ≡ ok (m', true))
          × Serves m.client_infos m'.client_infos socket
          × (m'.client_count ≡ m.client_count + 1))
reachable-Serves max socket m lo hi r = elim (Bool-cases (m.client_count == m.max_client_count)) [
  | inl full ↦
      let all : m.client_count ≡ m.max_client_count = (==_iff _ _).0 full in
      inl (all, create_client_full socket true true m all)
  | inr below ↦
      let (m', e, _, serves, count, _) =
        create_client-Serves 0 m socket (Reach-IsPool max 0 m lo hi r) (ne_of_test _ _ below)
          (inl refl) in
      inr (m', e, serves, count)
]
