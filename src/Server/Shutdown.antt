-- ===== src/Server/Shutdown.antt =====
-- The end of the server: the destructor of UserManager, in ChattingServer_v1.1/ChattingServer/UserManager.h.
use tcp_socket_chatting_serv.Base.{
  ℕ, ◌≡◌, ◌≢◌, refl, sym, ap, ◌∙◌, inl, inr, List, [], ◌∷◌, none, some, ◌==◌, arith, Bool-cases,
  Option-cases, ==_iff, >>=-eq_ok, ok_injective, All, Result, ok, ◌>>=◌,
}
use tcp_socket_chatting_serv.Containers.Laws.{ne_of_test, All-lookup}
use tcp_socket_chatting_serv.Server.World.{World, User, update, deref, close, delete_user}
use tcp_socket_chatting_serv.Server.Cast.{deref-eq_ok}
use tcp_socket_chatting_serv.Server.Invariant.{Heap, IsSound, Registered, update_at, update_off}

-- The loop of `~UserManager`, and the whole of it. No pointer of the map is null.
unfoldable pub destroy_in : World → List (ℕ × ℕ) → Result World
destroy_in w [] = ok w
destroy_in w ((_, p) ∷ users) = do
  u ← deref w p
  destroy_in (delete_user (close w u.session) p) users

unfoldable pub destroy_users : World → Result World
destroy_users w = destroy_in w w.user_list

-- The keys are distinct, as those of a map are.
abbrev pub IsMap : List (ℕ × ℕ) → Type 0
IsMap [] = Unit
IsMap ((uid, _) ∷ users) = All (λ (other, _). uid ≢ other) users × IsMap users

destroy_in-keeps :
    (w w' : World) (users : List (ℕ × ℕ)) (p : ℕ)
    → w.heap p ≡ none
    → destroy_in w users ≡ ok w'
    → w'.heap p ≡ none
unfolding destroy_in delete_user close
destroy_in-keeps w w' [] p gone e = ap (λ (x : World). x.heap p) (sym (ok_injective w w' e)) ∙ gone
destroy_in-keeps w w' ((_, q) ∷ users) p gone e =
    let (u, _, e₁) = >>=-eq_ok (deref w q) _ e in
    destroy_in-keeps (delete_user (close w u.session) q) w' users p still e₁
  where
    still : update w.heap q none p ≡ none
    still = elim (Bool-cases (p == q)) [
      | inl hit ↦ rw ((==_iff p q).0 hit) (update_at w.heap q none)
      | inr miss ↦ update_off w.heap q p none (ne_of_test p q miss) ∙ gone
    ]

-- Users with other numbers stay as they are when one is deleted.
others-stay :
    (heap : Heap) (uid p : ℕ) (u : User) (users : List (ℕ × ℕ))
    → heap p ≡ some u
    → u.user_id ≡ uid
    → All (λ (other, _). uid ≢ other) users
    → All (λ (other, q). Registered heap other q) users
    → All (λ (other, q). Registered (update heap p none) other q) users
others-stay heap uid p u [] here same apart regs = tt
others-stay heap uid p u ((other, q) ∷ users) here same (ne, apart) ((v, there, its), regs) = (
  (v, rw (update_off heap p q none away) there, its),
  others-stay heap uid p u users here same apart regs,
)
  where
    away : q ≢ p
    away at = ne (ground (arith, ap heap at))

destroy_in_lem :
    (w : World) (users : List (ℕ × ℕ))
    → IsMap users
    → All (λ (uid, p). Registered w.heap uid p) users
    → (w' : World) × (destroy_in w users ≡ ok w') × All (λ (uid, p). w'.heap p ≡ none) users
unfolding destroy_in delete_user close
destroy_in_lem w [] distinct regs = (w, refl, tt)
destroy_in_lem w ((uid, p) ∷ users) (apart, distinct) ((u, here, same), regs) =
    let (w', e, rest) =
      destroy_in_lem (delete_user (close w u.session) p) users distinct
        (others-stay w.heap uid p u users here same apart regs) in
    (
      w',
      rw (deref-eq_ok w p u here) e,
      (
        destroy_in-keeps (delete_user (close w u.session) p) w' users p (update_at w.heap p none) e,
        rest,
      ),
    )

-- While the invariant holds, where the keys of the list of users are distinct, the destructor of
-- the user manager meets no deleted user, and leaves no user behind.
pub destroy_users_lem :
    (w : World)
    → IsSound w
    → IsMap w.user_list
    → (w' : World) × (destroy_users w ≡ ok w') × ((p : ℕ) → w'.heap p ≡ none)
unfolding destroy_users
destroy_users_lem w sound distinct =
    let (w', e, all) = destroy_in_lem w w.user_list distinct sound.registered in
    (
      w',
      e,
      λ p. elim (Option-cases (w.heap p)) [
        | inl nobody ↦ destroy_in-keeps w w' w.user_list p nobody e
        | inr (u, here) ↦
            All-lookup (λ uid q. w'.heap q ≡ none) u.user_id p w.user_list all
              (sound.listed p u here).0
      ],
    )
