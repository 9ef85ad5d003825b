-- ===== src/Client/Lobby/Cursor.antt =====
-- The cursor of LobbyDisplay.h against a counter that stops at both ends of the list.
use tcp_socket_chatting_serv.Base.{
  ℕ, ◌⊎◌, ◌%◌, sym, subst, zero, suc, ◌+◌, ◌-◌, ◌≤◌, ◌<◌, ◌^◌, ◌≡◌, refl, ap, ◌∙◌, true, false, inl,
  inr, List, [], ◌∷◌, some, length, get_elem?, leb, ltb, ◌==◌, if◌then◌else◌, Bool-cases, ==_iff,
  Result, ok, arith,
}
use tcp_socket_chatting_serv.Client.Lobby.{
  LobbyDisplay, lower_limit, cursor_up, cursor_down, get_selection, min_short, max_short, id_at,
  size_of_short,
}

-- The arrow keys.
pub data Arrow : Type 0 where
  up down : Arrow

unfoldable pub move : LobbyDisplay → Arrow → LobbyDisplay
move d up = cursor_up d
move d down = cursor_down d

unfoldable pub moves : LobbyDisplay → List Arrow → LobbyDisplay
moves d [] = d
moves d (a ∷ arrows) = moves (move d a) arrows

-- A line of a list with `n` rooms: from 0 to `n`, where the last line is that for a new room.
unfoldable pub step_line : ℕ → ℕ → Arrow → ℕ
step_line n k up = k - 1
step_line n k down = if ltb k n then k + 1 else n

unfoldable pub walk : ℕ → ℕ → List Arrow → ℕ
walk n k [] = k
walk n k (a ∷ arrows) = walk n (step_line n k a) arrows

-- The display shows the line `k`, and has an id for each room.
pub record Shows (d : LobbyDisplay) (k : ℕ) : Type 0 where
  pub cursor : d.cursor_index ≡ lower_limit + k
  pub within : k ≤ length d.chat_rooms
  pub few : length d.chat_rooms + lower_limit + 1 < 2 ^ 15
  pub ids : length d.chat_room_ids ≡ length d.chat_rooms

-- What a line selects: the room's number, or 0 for a new room.
abbrev pub Selects : List ℕ → ℕ → Result ℕ → Type 0
Selects ids k r =
    ((k ≡ length ids) × (r ≡ ok 0)) ⊎ ((id : ℕ) × (get_elem? ids k ≡ some id) × (r ≡ ok id))

up_index :
    (k : ℕ)
    → lower_limit + k < 2 ^ 15
    → max_short ((lower_limit + k + 2 ^ 16 - 1) % 2 ^ 16) lower_limit ≡ lower_limit + (k - 1)
unfolding max_short
up_index k h = ground arith

down_index :
    (k n : ℕ)
    → k ≤ n
    → n + lower_limit + 1 < 2 ^ 15
    → min_short ((lower_limit + k + 1) % 2 ^ 16) (lower_limit + n)
      ≡ lower_limit + (if ltb k n then k + 1 else n)
unfolding min_short
down_index k n in_list few = ground arith

move-Shows :
    (d : LobbyDisplay) (k : ℕ) (a : Arrow)
    → Shows d k
    → Shows (move d a) (step_line (length d.chat_rooms) k a)
unfolding move step_line cursor_up cursor_down
move-Shows d k up h = record {
  cursor =
      ap (λ (c : ℕ). max_short ((c + 2 ^ 16 - 1) % 2 ^ 16) lower_limit) h.cursor
      ∙ up_index k (omega (arith, h.within, h.few));
  within = omega (arith, h.within);
  few = h.few;
  ids = h.ids;
}
move-Shows d k down h = record {
  cursor =
      ap (λ (c : ℕ). min_short ((c + 1) % 2 ^ 16) (lower_limit + length d.chat_rooms)) h.cursor
      ∙ down_index k (length d.chat_rooms) h.within h.few;
  within = ground (arith, h.within);
  few = h.few;
  ids = h.ids;
}

moved_rooms : (d : LobbyDisplay) (a : Arrow) → (move d a).chat_rooms ≡ d.chat_rooms
unfolding move cursor_up cursor_down
moved_rooms d up = refl
moved_rooms d down = refl

moved_ids : (d : LobbyDisplay) (a : Arrow) → (move d a).chat_room_ids ≡ d.chat_room_ids
unfolding move cursor_up cursor_down
moved_ids d up = refl
moved_ids d down = refl

moves-Shows :
    (d : LobbyDisplay) (k : ℕ) (arrows : List Arrow)
    → Shows d k
    → Shows (moves d arrows) (walk (length d.chat_rooms) k arrows)
      × ((moves d arrows).chat_room_ids ≡ d.chat_room_ids)
unfolding moves walk
moves-Shows d k [] h = (h, refl)
moves-Shows d k (a ∷ arrows) h =
    let (shown, same) =
      moves-Shows (move d a) (step_line (length d.chat_rooms) k a) arrows (move-Shows d k a h) in
    (
      subst
          (λ (rooms : List (List ℕ)).
            Shows (moves (move d a) arrows)
              (walk (length rooms) (step_line (length d.chat_rooms) k a) arrows))
          (moved_rooms d a) shown,
      same ∙ moved_ids d a,
    )

get_elem?_lem : (xs : List ℕ) (k : ℕ) → k < length xs → (id : ℕ) × (get_elem? xs k ≡ some id)
get_elem?_lem [] k h = absurd (omega arith)
get_elem?_lem (x ∷ xs) zero h = (x, refl)
get_elem?_lem (x ∷ xs) (suc k) h = get_elem?_lem xs k (omega arith)

get_selection-Selects :
    (d : LobbyDisplay) (k : ℕ) → Shows d k → Selects d.chat_room_ids k (get_selection d)
unfolding get_selection id_at size_of_short
get_selection-Selects d k h = elim (Bool-cases (k == length d.chat_rooms)) [
  | inl last ↦
      let at_end : (lower_limit + k == length d.chat_rooms + lower_limit) ≡ true = ground arith in
      let plus : leb (2 ^ 15) (lower_limit + k) ≡ false = ground (arith, h.few, h.within) in
      inl ((==_iff k _).0 last ∙ sym h.ids, rw (h.cursor, plus, at_end))
  | inr before ↦
      let inside : (lower_limit + k == length d.chat_rooms + lower_limit) ≡ false = ground arith in
      let plus : leb (2 ^ 15) (lower_limit + k) ≡ false = ground (arith, h.few, h.within) in
      let above : ltb (lower_limit + k) lower_limit ≡ false = ground arith in
      let index : lower_limit + k - lower_limit ≡ k = omega arith in
      let (id, there) = get_elem?_lem d.chat_room_ids k (ground (arith, h.ids, h.within)) in
      inr (id, there, rw (h.cursor, plus, inside, above, index, there))
]

-- Where the display of the lobby shows a line of a list of rooms with an id for each, of few
-- enough rooms that a row number fits a `short`: after any arrow keys, the selection is that of a
-- counter that stops at both ends of the list, a room's id, or 0 on the line behind the rooms.
pub moves-Selects :
    (d : LobbyDisplay) (k : ℕ) (arrows : List Arrow)
    → Shows d k
    → Selects d.chat_room_ids (walk (length d.chat_rooms) k arrows) (get_selection (moves d arrows))
moves-Selects d k arrows h =
    let (shown, same) = moves-Shows d k arrows h in
    subst
      (λ (ids : List ℕ).
        Selects ids (walk (length d.chat_rooms) k arrows) (get_selection (moves d arrows)))
      same (get_selection-Selects (moves d arrows) (walk (length d.chat_rooms) k arrows) shown)
