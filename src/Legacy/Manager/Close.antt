-- ===== src/Legacy/Manager/Close.antt =====
-- `CloseClient` of ChattingServer_v1.0/ChattingServer/ClientManager.h, and a `Close` past it.
use tcp_socket_chatting_serv.Base.{
  ℕ, ◌+◌, ◌-◌, ◌%◌, ◌^◌, ◌≡◌, refl, ◌∙◌, inl, inr, subst, true, Bool-cases, List, [], ◌∷◌, ◌++◌,
  none, some, All, All-append, length-append, get_elem?, ◌==◌, ==_iff, arith, ok, ok_injective,
  >>=-eq_ok,
}
use tcp_socket_chatting_serv.Containers.Laws.{ne_of_test, All-map}
use tcp_socket_chatting_serv.Legacy.Slots.{
  set_at, length-set_at, get_elem?-set_at, get_elem?-set_at_ne, Distinct-append_one,
}
use tcp_socket_chatting_serv.Legacy.User.{UserInfo, is_connected, close}
use tcp_socket_chatting_serv.Legacy.Manager.{
  ClientManager, client_at, put_client, close_client, drop_client,
}
use tcp_socket_chatting_serv.Legacy.Manager.Pool.{
  Free, IsPool, connected_count, connected_count-set_at, weight, not-Free,
}
use tcp_socket_chatting_serv.Legacy.Manager.Create.{weight_off}
use tcp_socket_chatting_serv.Legacy.Manager.Empty.{client_at-eq_ok}

-- A client that loses its socket leaves the free ones free.
Free-close :
    (infos : List UserInfo) (i : ℕ) (u v : UserInfo) (es : List ℕ)
    → get_elem? infos i ≡ some u
    → v.socket ≡ none
    → All (Free infos) es
    → All (Free (set_at i v infos)) es
Free-close infos i u v es there off = All-map _ _ es (λ j (w, at, w_off).
    elim (Bool-cases (i == j)) [
      | inl same ↦ (
        v,
        subst (λ k. get_elem? (set_at i v infos) k ≡ some v) ((==_iff i j).0 same)
            (get_elem?-set_at i u v infos there),
        off,
      )
      | inr other ↦ (w, get_elem?-set_at_ne i j v infos (ne_of_test i j other) ∙ at, w_off)
    ])

module _ (n i : ℕ) (m : ClientManager) (u : UserInfo) (p : IsPool n m)
    (there : get_elem? m.client_infos i ≡ some u) where
  closed_count :
      connected_count (set_at i (close u) m.client_infos) + weight u
      ≡ connected_count m.client_infos
  unfolding close
  closed_count =
      omega (
        arith,
        connected_count-set_at i u (close u) m.client_infos there,
        weight_off (close u) refl,
      )

  dropped-IsPool : IsPool n (put_client m i (close u))
  unfolding put_client close
  dropped-IsPool = record {
    size = length-set_at i (close u) m.client_infos ∙ p.size;
    most = p.most;
    least = p.least;
    bound = p.bound;
    free = Free-close m.client_infos i u (close u) m.empty_clients there refl p.free;
    distinct = p.distinct;
    total = p.total;
    counted = omega (arith, closed_count, p.counted);
  }

  closed-IsPool :
      is_connected u ≡ true
      → IsPool n (record (put_client m i (close u)) {
        empty_clients = m.empty_clients ++ i ∷ [];
        client_count = (m.client_count + (2 ^ 32 - 1)) % 2 ^ 32;
      })
  unfolding put_client close
  closed-IsPool on = record {
    size = length-set_at i (close u) m.client_infos ∙ p.size;
    most = p.most;
    least = p.least;
    bound = p.bound;
    free =
        All-append _ m.empty_clients (i ∷ [])
          (Free-close m.client_infos i u (close u) m.empty_clients there refl p.free)
          ((close u, get_elem?-set_at i u (close u) m.client_infos there, refl), tt);
    distinct =
        Distinct-append_one m.empty_clients i p.distinct
          (not-Free m.client_infos i u m.empty_clients there on p.free);
    total = omega (arith, one_less, length-append m.empty_clients (i ∷ []), p.total);
    counted = omega (arith, one_less, one, closed_count, p.counted);
  }
    where
      one : weight u ≡ 1
      one = rw on

      one_less : (m.client_count + (2 ^ 32 - 1)) % 2 ^ 32 + 1 ≡ m.client_count
      one_less = omega (arith, one, closed_count, p.counted, p.total, p.most, p.bound)

pub drops-IsPool :
    (n i : ℕ) (m m' : ClientManager) → IsPool n m → drop_client i m ≡ ok m' → IsPool n m'
unfolding drop_client
drops-IsPool n i m m' p e =
    let (u, at, e') = >>=-eq_ok (client_at m i) _ e in
    subst (IsPool n) (ok_injective _ m' e') (dropped-IsPool n i m u p (client_at-eq_ok m i u at))

pub closes-IsPool :
    (n i : ℕ) (m m' : ClientManager) → IsPool n m → close_client i m ≡ ok m' → IsPool n m'
unfolding close_client
closes-IsPool n i m m' p e =
    let (u, at, e') = >>=-eq_ok (client_at m i) _ e in
    elim (Bool-cases (is_connected u)) [
      | inl on ↦
          subst (IsPool n) (ok_injective _ m' (rw on at e'))
            (closed-IsPool n i m u p (client_at-eq_ok m i u at) on)
      | inr off ↦ subst (IsPool n) (ok_injective m m' (rw off at e')) p
    ]
