-- ===== src/Server/Invariant/Changes.antt =====
-- The invariant under a user's new name, entry into a room and exit from it.
use tcp_socket_chatting_serv.Base.{
  ℕ, ◌≡◌, refl, sym, ap, ◌∙◌, true, inl, inr, List, none, some, All, ◌==◌, arith, Bool-cases,
  ==_iff, ==_refl,
}
use tcp_socket_chatting_serv.Containers.{contains, set_insert, set_erase, lookup, modify}
use tcp_socket_chatting_serv.Containers.Laws.{
  contains-set_insert, contains-set_erase, ne_of_test, All-set_insert, All-set_erase, All-map,
  lookup-modify_self, lookup-modify_ne, All-modify,
}
use tcp_socket_chatting_serv.Server.World.{User, Room, update}
use tcp_socket_chatting_serv.Server.Invariant.{
  Heap, Inside, Inv, update_at, update_off, Registered-update, listed-update, Inside-update,
  Inside-ne,
}

abbrev pub with_users : (List ℕ → List ℕ) → Room → Room
with_users f r = record r { users = f r.users }

-- Where a located user is found, room by room.
abbrev Located : List (ℕ × Room) → ℕ → ℕ → Type 0
Located rooms p rid =
    (room : Room) × (lookup rid rooms ≡ some room) × (contains p room.users ≡ true)

-- A change of a room that leaves `q` in it.
Located-modify :
    (rooms : List (ℕ × Room)) (rid q r : ℕ) (f : List ℕ → List ℕ)
    → ((xs : List ℕ) → contains q xs ≡ true → contains q (f xs) ≡ true)
    → Located rooms q r
    → Located (modify rid (with_users f) rooms) q r
Located-modify rooms rid q r f keeps (x, found, c) = elim (Bool-cases (r == rid)) [
  | inl hit ↦
      let e : r ≡ rid = (==_iff r rid).0 hit in
      (
        with_users f x,
        rw e (lookup-modify_self rid (with_users f) x rooms (rw e at found)),
        keeps x.users c,
      )
  | inr miss ↦ (x, lookup-modify_ne r rid (with_users f) rooms (ne_of_test r rid miss) ∙ found, c)
]

module _ (heap : Heap) (users : List (ℕ × ℕ)) (rooms : List (ℕ × Room)) (p : ℕ) (u : User)
    (here : heap p ≡ some u) (inv : Inv heap users rooms) where
  -- A change of name.
  pub Inv-rename :
      (nickname : List ℕ)
      → Inv (update heap p (some (record u { nickname = nickname }))) users rooms
  Inv-rename nickname = record {
    registered =
        All-map _ _ users (λ e r. Registered-update heap p u u' here refl e.0 e.1 r) inv.registered;
    listed = listed-update heap users p u u' here refl refl inv.listed;
    members =
        All-map _ _ rooms (λ e m. All-map _ _ e.1.users (λ q i. inside e.0 q i) m) inv.members;
    located = located;
  }
    where
      u' : User
      u' = record u { nickname = nickname }

      inside : (rid q : ℕ) → Inside heap rid q → Inside (update heap p (some u')) rid q
      inside rid q (v, there, e) = elim (Bool-cases (q == p)) [
        | inl hit ↦
            let at_p : q ≡ p = (==_iff q p).0 hit in
            let both : v ≡ u = ground (arith, ap heap at_p) in
            (u', rw at_p (update_at heap p (some u')), ground (arith, both))
        | inr miss ↦ Inside-update heap p rid q (some u') (ne_of_test q p miss) (v, there, e)
      ]

      located :
          (q : ℕ) (v : User) (rid : ℕ)
          → update heap p (some u') q ≡ some v
          → v.curr_room ≡ some rid
          → Located rooms q rid
      located q v rid there e = elim (Bool-cases (q == p)) [
        | inl hit ↦
            let at_p : q ≡ p = (==_iff q p).0 hit in
            let both : u' ≡ v =
              ground (arith, update_at heap p (some u'), ap (update heap p (some u')) at_p) in
            rw at_p (inv.located p u rid here (ap (λ (x : User). x.curr_room) both ∙ e))
        | inr miss ↦
            inv.located q v rid (sym (update_off heap p q (some u') (ne_of_test q p miss)) ∙ there)
              e
      ]

  -- A user who is in the lobby enters a room that there is.
  pub Inv-enter :
      (rid : ℕ) (room : Room)
      → u.curr_room ≡ none
      → lookup rid rooms ≡ some room
      → Inv
          (update heap p (some (record u { curr_room = some rid })))
          users
          (modify rid (with_users (set_insert p)) rooms)
  Inv-enter rid room lobby found = record {
    registered =
        All-map _ _ users (λ e r. Registered-update heap p u u' here refl e.0 e.1 r) inv.registered;
    listed = listed-update heap users p u u' here refl refl inv.listed;
    members =
        All-modify (λ r x. All (λ q. Inside heap r q) x.users)
          (λ r x. All (λ q. Inside heap' r q) x.users) rid (with_users (set_insert p)) rooms
          (λ x m.
            All-set_insert _ p x.users (u', update_at heap p (some u'), refl) (others rid x m))
          (λ r x _ m. others r x m) inv.members;
    located = located;
  }
    where
      u' : User
      u' = record u { curr_room = some rid }

      heap' : Heap
      heap' = update heap p (some u')

      others :
          (r : ℕ) (x : Room)
          → All (λ q. Inside heap r q) x.users
          → All (λ q. Inside heap' r q) x.users
      others r x m =
          All-map _ _ x.users
            (λ q i. Inside-update heap p r q (some u') (Inside-ne heap p r q u here (λ e. cc) i) i)
            m

      located :
          (q : ℕ) (v : User) (r : ℕ)
          → heap' q ≡ some v
          → v.curr_room ≡ some r
          → Located (modify rid (with_users (set_insert p)) rooms) q r
      located q v r there e = elim (Bool-cases (q == p)) [
        | inl hit ↦
            let at_p : q ≡ p = (==_iff q p).0 hit in
            let both : u' ≡ v = ground (arith, update_at heap p (some u'), ap heap' at_p) in
            let same : rid ≡ r = ground (arith, ap (λ (x : User). x.curr_room) both) in
            rw (at_p, ← same)
              (
                with_users (set_insert p) room,
                lookup-modify_self rid (with_users (set_insert p)) room rooms found,
                contains-set_insert p p room.users ∙ rw (==_refl p),
              )
        | inr miss ↦
            let q≢p = ne_of_test q p miss in
            Located-modify rooms rid q r (set_insert p)
              (λ xs c. contains-set_insert q p xs ∙ rw (miss, c))
              (inv.located q v r (sym (update_off heap p q (some u') q≢p) ∙ there) e)
      ]

  -- A user leaves the room that the user is in.
  pub Inv-exit :
      (rid : ℕ)
      → u.curr_room ≡ some rid
      → Inv
          (update heap p (some (record u { curr_room = none })))
          users
          (modify rid (with_users (set_erase p)) rooms)
  Inv-exit rid inside = record {
    registered =
        All-map _ _ users (λ e r. Registered-update heap p u u' here refl e.0 e.1 r) inv.registered;
    listed = listed-update heap users p u u' here refl refl inv.listed;
    members =
        All-modify (λ r x. All (λ q. Inside heap r q) x.users)
          (λ r x. All (λ q. Inside heap' r q) x.users) rid (with_users (set_erase p)) rooms
          (λ x m.
            All-map _ _ (set_erase p x.users)
              (λ q (i, ne). Inside-update heap p rid q (some u') (λ e. ne (sym e)) i)
              (All-set_erase _ p x.users m))
          (λ r x other m.
            All-map _ _ x.users
              (λ q i.
                Inside-update heap p r q (some u')
                  (Inside-ne heap p r q u here (λ e. other (ground arith)) i) i)
              m)
          inv.members;
    located = located;
  }
    where
      u' : User
      u' = record u { curr_room = none }

      heap' : Heap
      heap' = update heap p (some u')

      located :
          (q : ℕ) (v : User) (r : ℕ)
          → heap' q ≡ some v
          → v.curr_room ≡ some r
          → Located (modify rid (with_users (set_erase p)) rooms) q r
      located q v r there e = elim (Bool-cases (q == p)) [
        | inl hit ↦
            let at_p : q ≡ p = (==_iff q p).0 hit in
            let both : u' ≡ v = ground (arith, update_at heap p (some u'), ap heap' at_p) in
            absurd (ground (arith, ap (λ (x : User). x.curr_room) both))
        | inr miss ↦
            Located-modify rooms rid q r (set_erase p)
              (λ xs c. contains-set_erase q p xs ∙ rw (miss, c))
              (inv.located q v r (sym (update_off heap p q (some u') (ne_of_test q p miss)) ∙ there)
                e)
      ]
