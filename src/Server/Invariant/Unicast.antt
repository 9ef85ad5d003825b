-- ===== src/Server/Invariant/Unicast.antt =====
-- Unicasts: the search for a user by name, and the two answers.
use tcp_socket_chatting_serv.Base.{
  ℕ, ◌≡◌, ◌≢◌, refl, sym, ap, ◌∙◌, false, inl, inr, List, [], ◌∷◌, Option, none, some, All, arith,
  Bool-cases, subst, ok_injective, ok, str_eq, str_eq→eq, str_eq_refl,
}
use tcp_socket_chatting_serv.Packet.Types.{pk_c_unicast, pk_s_unicast_ok, pk_s_unicast_no}
use tcp_socket_chatting_serv.Server.World.{User, World, SendPackage, push_package}
use tcp_socket_chatting_serv.Server.Users.{find_in, find_by_nickname}
use tcp_socket_chatting_serv.Server.Logic.{process, answer_unicast, on_unicast}
use tcp_socket_chatting_serv.Server.Cast.{package_to, queued, queued-queued, deref-eq_ok}
use tcp_socket_chatting_serv.Server.Invariant.Handlers.{user_of_lem}
use tcp_socket_chatting_serv.Server.Invariant.{Heap, Registered, IsSound}

-- What a search for a name finds: a user with that name, or that no user has it.
abbrev pub Finds : Heap → List (ℕ × ℕ) → List ℕ → Option ℕ → Type 0
Finds heap users name none =
    All (λ (_, p). (v : User) × (heap p ≡ some v) × (v.nickname ≢ name)) users
Finds heap users name (some p) = (v : User) × (heap p ≡ some v) × (v.nickname ≡ name)

find_in_lem :
    (w : World) (users : List (ℕ × ℕ)) (name : List ℕ)
    → All (λ (uid, p). Registered w.heap uid p) users
    → (found : Option ℕ) × (find_in w users name ≡ ok found) × Finds w.heap users name found
unfolding find_in
find_in_lem w [] name live = (none, refl, tt)
find_in_lem w ((uid, p) ∷ users) name ((v, there, _), live) =
    elim (Bool-cases (str_eq name v.nickname)) [
      | inl hit ↦ (
        some p,
        rw (deref-eq_ok w p v there, hit),
        (v, there, sym (str_eq→eq name v.nickname hit)),
      )
      | inr miss ↦ on_rest miss (find_in_lem w users name live)
    ]
  where
    other : str_eq name v.nickname ≡ false → v.nickname ≢ name
    other miss same = ground (arith, ap (str_eq name) same, str_eq_refl name)

    on_rest :
        str_eq name v.nickname ≡ false
        → ((found : Option ℕ) × (find_in w users name ≡ ok found) × Finds w.heap users name found)
        → (found : Option ℕ) × (find_in w ((uid, p) ∷ users) name ≡ ok found)
          × Finds w.heap ((uid, p) ∷ users) name found
    on_rest miss (none, e, f) =
        (none, rw (deref-eq_ok w p v there, miss, e), ((v, there, other miss), f))
    on_rest miss (some q, e, f) = (some q, rw (deref-eq_ok w p v there, miss, e), f)

-- `FindByNickname` returns, and tells whether some user has the name.
pub find_by_nickname_lem :
    (w : World) (name : List ℕ)
    → IsSound w
    → (found : Option ℕ) × (find_by_nickname w name ≡ ok found)
      × Finds w.heap w.user_list name found
unfolding find_by_nickname
find_by_nickname_lem w name sound = find_in_lem w w.user_list name sound.registered

-- What a unicast queues: a refusal for the sender, or the text for the sender and the receiver.
abbrev pub answers : ℕ → List ℕ → List ℕ → Option ℕ → List SendPackage
answers s nickname text none = package_to s pk_s_unicast_no ∷ []
answers s nickname text (some p) =
    package_to s (pk_s_unicast_ok nickname text) ∷ package_to p (pk_s_unicast_ok nickname text) ∷ []

module _ (w : World) (s : ℕ) (u : User) (here : w.heap s ≡ some u) (sound : IsSound w) where
  answer_lem :
      (recver text : List ℕ) (found : Option ℕ)
      → Finds w.heap w.user_list recver found
      → answer_unicast w s u.nickname text found ≡ ok (queued w (answers s u.nickname text found))
  unfolding answer_unicast queued push_package
  answer_lem recver text none f = refl
  answer_lem recver text (some p) (v, there, _) = rw (deref-eq_ok w p v there) (
      ap ok (
        queued-queued w (package_to s (pk_s_unicast_ok u.nickname text) ∷ [])
          (package_to p (pk_s_unicast_ok u.nickname text) ∷ [])))

  pub unicast_found :
      (recver text : List ℕ) (found : Option ℕ)
      → find_by_nickname w recver ≡ ok found
      → process w s (pk_c_unicast recver text) ≡ ok (queued w (answers s u.nickname text found))
  unfolding process on_unicast
  unicast_found recver text found e =
      let (found', e', f) = find_by_nickname_lem w recver sound in
      let same : found' ≡ found = ok_injective found' found (sym e' ∙ e) in
      rw (user_of_lem w s u here sound, e, deref-eq_ok w s u here)
        (answer_lem recver text found (subst (Finds w.heap w.user_list recver) same f))

  -- While the invariant holds and the user of the session is there, a unicast queues the text for
  -- the sender and for a user who has the name, or a refusal for the sender if no user on the list
  -- has it, and changes nothing else.
  pub unicast_lem :
      (recver text : List ℕ)
      → (found : Option ℕ) × (process w s (pk_c_unicast recver text)
          ≡ ok (queued w (answers s u.nickname text found)))
        × Finds w.heap w.user_list recver found
  unicast_lem recver text =
      let (found, e, f) = find_by_nickname_lem w recver sound in
      (found, unicast_found recver text found e, f)
