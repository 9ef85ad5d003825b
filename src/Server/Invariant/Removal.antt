-- ===== src/Server/Invariant/Removal.antt =====
-- The invariant under a user's creation and removal, and under a room's creation.
use tcp_socket_chatting_serv.Base.{
  ℕ, ◌≡◌, ◌≢◌, refl, sym, ap, ◌∙◌, true, inl, inr, List, [], none, some, ◌==◌, if◌then◌else◌, arith,
  Bool-cases, ==_iff, ==_refl,
}
use tcp_socket_chatting_serv.Containers.{contains, lookup, map_insert, map_erase}
use tcp_socket_chatting_serv.Containers.Laws.{
  ne_of_test, All-map, lookup-map_insert, lookup-map_erase, All-map_insert, All-map_erase,
}
use tcp_socket_chatting_serv.Server.World.{User, Room, update}
use tcp_socket_chatting_serv.Server.Users.{new_user}
use tcp_socket_chatting_serv.Server.Invariant.{
  Heap, Registered, Inv, update_at, update_off, Inside-update, Inside-ne,
}

-- A user who is in no room is deleted and taken off the list.
pub Inv-delete :
    (heap : Heap) (users : List (ℕ × ℕ)) (rooms : List (ℕ × Room)) (p : ℕ) (u : User)
    → heap p ≡ some u
    → Inv heap users rooms
    → u.curr_room ≡ none
    → Inv (update heap p none) (map_erase u.user_id users) rooms
Inv-delete heap users rooms p u here inv lobby = record {
  registered =
      All-map _ _ (map_erase u.user_id users) (λ e (r, ne). kept e.0 e.1 r ne)
        (All-map_erase _ u.user_id users inv.registered);
  listed = listed;
  members =
      All-map _ _ rooms
        (λ e m.
          All-map _ _ e.1.users
            (λ q i. Inside-update heap p e.0 q none (Inside-ne heap p e.0 q u here (λ o. cc) i) i)
            m)
        inv.members;
  located = λ q v r there e. inv.located q v r (old q v there) e;
}
  where
    off : (q : ℕ) (v : User) → update heap p none q ≡ some v → q ≢ p
    off q v there same = ground (arith, ap (update heap p none) same, update_at heap p none)

    old : (q : ℕ) (v : User) → update heap p none q ≡ some v → heap q ≡ some v
    old q v there = sym (update_off heap p q none (off q v there)) ∙ there

    kept :
        (uid q : ℕ)
        → Registered heap uid q
        → u.user_id ≢ uid
        → Registered (update heap p none) uid q
    kept uid q (v, there, e) ne =
        (v, rw (update_off heap p q none (λ same. ne (ground (arith, ap heap same)))) there, e)

    listed :
        (q : ℕ) (v : User)
        → update heap p none q ≡ some v
        → (lookup v.user_id (map_erase u.user_id users) ≡ some q) × (v.session.user_id ≡ v.user_id)
    listed q v there =
        let (found, same) = inv.listed q v (old q v there) in
        let (mine, _) = inv.listed p u here in
        elim (Bool-cases (v.user_id == u.user_id)) [
          | inl hit ↦ absurd (
              off q v there (
                ground
                  (arith, ap (λ (i : ℕ). lookup i users) ((==_iff v.user_id u.user_id).0 hit))))
          | inr miss ↦ (lookup-map_erase v.user_id u.user_id users ∙ rw miss found, same)
        ]

-- A new user, at a free address and with a free number.
pub Inv-register :
    (heap : Heap) (users : List (ℕ × ℕ)) (rooms : List (ℕ × Room)) (p uid socket : ℕ)
    → heap p ≡ none
    → lookup uid users ≡ none
    → Inv heap users rooms
    → Inv (update heap p (some (new_user uid socket))) (map_insert uid p users) rooms
Inv-register heap users rooms p uid socket free unused inv = record {
  registered =
      All-map_insert _ uid p users (u, update_at heap p (some u), refl)
        (All-map _ _ users (λ e (v, there, same). (v, moved e.1 v there, same)) inv.registered);
  listed = listed;
  members =
      All-map _ _ rooms
        (λ e m. All-map _ _ e.1.users (λ q (v, there, same). (v, moved q v there, same)) m)
        inv.members;
  located = located;
}
  where
    u : User
    u = new_user uid socket

    moved : (q : ℕ) (v : User) → heap q ≡ some v → update heap p (some u) q ≡ some v
    moved q v there = rw (update_off heap p q (some u) (λ same. ground (arith, ap heap same))) there

    -- A user of the new heap is the new one, or was there before.
    listed :
        (q : ℕ) (v : User)
        → update heap p (some u) q ≡ some v
        → (lookup v.user_id (map_insert uid p users) ≡ some q) × (v.session.user_id ≡ v.user_id)
    listed q v there = elim (Bool-cases (q == p)) [
      | inl hit ↦
          let at_p : q ≡ p = (==_iff q p).0 hit in
          let both : u ≡ v =
            ground (arith, update_at heap p (some u), ap (update heap p (some u)) at_p) in
          rw (← both, at_p) (lookup-map_insert uid uid p users unused ∙ rw (==_refl uid), refl)
      | inr miss ↦
          let was : heap q ≡ some v =
            sym (update_off heap p q (some u) (ne_of_test q p miss)) ∙ there in
          let (found, same) = inv.listed q v was in
          (lookup-map_insert v.user_id uid p users unused ∙ other v.user_id q found, same)
    ]
      where
        other :
            (i j : ℕ)
            → lookup i users ≡ some j
            → (if i == uid then some p else lookup i users) ≡ some j
        other i j found = elim (Bool-cases (i == uid)) [
          | inl hit ↦ absurd (ground (arith, ap (λ (k : ℕ). lookup k users) ((==_iff i uid).0 hit)))
          | inr miss ↦ rw miss found
        ]

    located :
        (q : ℕ) (v : User) (r : ℕ)
        → update heap p (some u) q ≡ some v
        → v.curr_room ≡ some r
        → (room : Room) × (lookup r rooms ≡ some room) × (contains q room.users ≡ true)
    located q v r there e = elim (Bool-cases (q == p)) [
      | inl hit ↦
          let at_p : q ≡ p = (==_iff q p).0 hit in
          let both : u ≡ v =
            ground (arith, update_at heap p (some u), ap (update heap p (some u)) at_p) in
          absurd (ground (arith, ap (λ (x : User). x.curr_room) both))
      | inr miss ↦
          inv.located q v r (sym (update_off heap p q (some u) (ne_of_test q p miss)) ∙ there) e
    ]

-- A new room, empty and with a free number.
pub Inv-add_room :
    (heap : Heap) (users : List (ℕ × ℕ)) (rooms : List (ℕ × Room)) (rid : ℕ) (room : Room)
    → room.users ≡ []
    → lookup rid rooms ≡ none
    → Inv heap users rooms
    → Inv heap users (map_insert rid room rooms)
Inv-add_room heap users rooms rid room empty unused inv = record {
  registered = inv.registered;
  listed = inv.listed;
  members = All-map_insert _ rid room rooms (rw empty tt) inv.members;
  located = located;
}
  where
    located :
        (q : ℕ) (v : User) (r : ℕ)
        → heap q ≡ some v
        → v.curr_room ≡ some r
        → (x : Room) × (lookup r (map_insert rid room rooms) ≡ some x) × (contains q x.users ≡ true)
    located q v r there e =
        let (x, found, c) = inv.located q v r there e in
        (x, lookup-map_insert r rid room rooms unused ∙ other x found, c)
      where
        other :
            (x : Room)
            → lookup r rooms ≡ some x
            → (if r == rid then some room else lookup r rooms) ≡ some x
        other x found = elim (Bool-cases (r == rid)) [
          | inl hit ↦ absurd (ground (arith, ap (λ (k : ℕ). lookup k rooms) ((==_iff r rid).0 hit)))
          | inr miss ↦ rw miss found
        ]
