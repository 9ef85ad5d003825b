-- ===== src/Legacy/Screen.antt =====
-- ChattingServer_v1.0/ChattingClient/Position.h, `Receive`: a received text in pieces that fit the box. A
-- text is its bytes without the NUL, and a `char` from 128 on is below zero.
use mathlib.Core.Option
use tcp_socket_chatting_serv.Base.{
  ℕ, zero, suc, ◌+◌, ◌-◌, ◌≤◌, ◌<◌, ◌≡◌, refl, ap, ◌∙◌, ◌⊎◌, inl, inr, Bool, true, false,
  Bool-cases, ◌==◌, ==_iff, lt→leb, List, [], ◌∷◌, ◌++◌, append-nil, Option, none, some, length,
  take, drop, get_elem?, leb, ltb, if◌then◌else◌, arith, Result, ok, ◌>>◌, guard, out_of_range,
}
use tcp_socket_chatting_serv.Legacy.Lines.{joined, take-drop}

abbrev pub chat_box_size : ℕ
chat_box_size = 50

-- `content[end - 1] < 0`.
unfoldable pub is_minus : Option ℕ → Bool
is_minus none = false
is_minus (some c) = leb 128 c

unfoldable pub cuts_char : List ℕ → ℕ → Bool
unfolding is_minus
cuts_char content end_ptr = is_minus (get_elem? content (end_ptr - 1))

-- Where a piece stops, one byte early if its last is below zero, and where the next one ends.
unfoldable pub piece_stop : List ℕ → ℕ → ℕ
unfolding cuts_char
piece_stop content end_ptr = if cuts_char content end_ptr then end_ptr - 1 else end_ptr

unfoldable pub next_end : List ℕ → ℕ → ℕ
next_end content stop =
    if ltb (stop + chat_box_size) (length content) then stop + chat_box_size else length content

-- The loop, on fuel; `none` where that is used up.
unfoldable pub print_pieces : ℕ → List ℕ → ℕ → ℕ → Option (List (List ℕ))
unfolding piece_stop next_end
print_pieces zero content start end_ptr = none
print_pieces (suc fuel) content start end_ptr =
    let stop = piece_stop content end_ptr in
    let piece = drop start (take stop content) in
    let rest = print_pieces fuel content stop (next_end content stop) in
    if leb (next_end content stop) stop then some (piece ∷ []) else Option.map (◌∷◌ piece) rest

-- The pieces of a text; the first leaves room for the sender's name.
unfoldable pub receive : ℕ → List ℕ → List ℕ → Result (Option (List (List ℕ)))
unfolding print_pieces
receive fuel nickname content =
    if ltb (length content) chat_box_size then ok (some (content ∷ [])) else (do
      guard (ltb (length nickname) 44) out_of_range
      ok (print_pieces fuel content 0 (44 - length nickname)))

le→ltb : (a b : ℕ) → b ≤ a → ltb a b ≡ false
le→ltb a b h = ground arith

leb_refl : (a : ℕ) → leb a a ≡ true
leb_refl a = ground arith

stop-bounds :
    (content : List ℕ) (end_ptr : ℕ)
    → (piece_stop content end_ptr ≤ end_ptr) × (end_ptr ≤ piece_stop content end_ptr + 1)
unfolding piece_stop
stop-bounds content end_ptr = ground arith

-- Inside the text there is always a next piece, which ends further on.
next-bounds :
    (content : List ℕ) (stop : ℕ)
    → stop < length content
    → (stop < next_end content stop) × (next_end content stop ≤ length content)
unfolding next_end
next-bounds content stop h = ground arith

next_far :
    (content : List ℕ) (stop end_ptr : ℕ)
    → end_ptr ≤ stop + 1
    → end_ptr < length content
    → end_ptr < next_end content stop
unfolding next_end
next_far content stop end_ptr h l = ground arith

next_last : (content : List ℕ) → next_end content (length content) ≡ length content
unfolding next_end
next_last content = ground arith

-- A byte below zero at the end is left for a piece that never comes.
stop-last :
    (content : List ℕ) (end_ptr : ℕ)
    → cuts_char content (length content) ≡ true
    → 1 ≤ end_ptr
    → end_ptr ≤ length content
    → piece_stop content end_ptr < length content
unfolding piece_stop
stop-last content end_ptr last lo hi = elim (Bool-cases (end_ptr == length content)) [
  | inl at_end ↦ rw ((==_iff _ _).0 at_end, last) (omega arith)
  | inr before ↦ let lt : end_ptr < length content = ground arith in ground arith
]

print_pieces-none :
    (fuel : ℕ) (content : List ℕ) (start end_ptr : ℕ)
    → cuts_char content (length content) ≡ true
    → 1 ≤ end_ptr
    → end_ptr ≤ length content
    → print_pieces fuel content start end_ptr ≡ none
unfolding print_pieces
print_pieces-none zero content start end_ptr last lo hi = refl
print_pieces-none (suc fuel) content start end_ptr last lo hi =
    let stop : ℕ = piece_stop content end_ptr in
    let (further, within) = next-bounds content stop (stop-last content end_ptr last lo hi) in
    rw (
      lt→leb (next_end content stop) stop further,
      print_pieces-none fuel content stop (next_end content stop) last (omega (arith, further))
          within,
    )

take_all : (xs : List ℕ) → take (length xs) xs ≡ xs
take_all [] = refl
take_all (x ∷ xs) = ap (◌∷◌ x) (take_all xs)

-- The piece up to `stop`, and what is left.
drop-take :
    (start stop : ℕ) (xs : List ℕ)
    → start ≤ stop
    → drop start (take stop xs) ++ drop stop xs ≡ drop start xs
drop-take zero stop xs h = take-drop stop xs
drop-take (suc start) zero xs h = absurd (omega arith)
drop-take (suc start) (suc stop) [] h = refl
drop-take (suc start) (suc stop) (x ∷ xs) h = drop-take start stop xs (omega arith)

-- Where the last byte is not below zero, the pieces are the text.
print_pieces-some :
    (fuel : ℕ) (content : List ℕ) (start end_ptr : ℕ)
    → cuts_char content (length content) ≡ false
    → start < end_ptr
    → end_ptr ≤ length content
    → length content - end_ptr < fuel
    → (pieces : List (List ℕ)) × (print_pieces fuel content start end_ptr ≡ some pieces)
      × (joined pieces ≡ drop start content)
unfolding print_pieces joined
print_pieces-some zero content start end_ptr last lo hi enough = absurd (omega arith)
print_pieces-some (suc fuel) content start end_ptr last lo hi enough =
    elim (Bool-cases (end_ptr == length content)) [
      | inl at_end ↦
          let here : end_ptr ≡ length content = (==_iff _ _).0 at_end in
          let stops : piece_stop content (length content) ≡ length content =
            unfold piece_stop in rw last in
          (
            drop start content ∷ [],
            rw (here, stops, next_last content, leb_refl (length content), take_all content),
            append-nil (drop start content),
          )
      | inr before ↦
          let lt : end_ptr < length content = ground arith in
          let stop : ℕ = piece_stop content end_ptr in
          let (back, ahead) = stop-bounds content end_ptr in
          let (further, within) = next-bounds content stop (omega (arith, back, lt)) in
          let (pieces, e, whole) =
            print_pieces-some fuel content stop (next_end content stop) last further within
              (omega (arith, next_far content stop end_ptr ahead lt, within, enough)) in
          (
            drop start (take stop content) ∷ pieces,
            rw (lt→leb (next_end content stop) stop further, e),
            ap (λ l. drop start (take stop content) ++ l) whole
                ∙ drop-take start stop content (omega (arith, ahead, lo)),
          )
    ]

-- In version 1.0, where the sender's name has fewer than 44 bytes and a received text 50 at least:
-- if the last byte of the text is below zero as a `char`, the loop that prints the text in pieces
-- does not end, whatever fuel it is given; if not, it ends within as many rounds as the text has
-- bytes, and the pieces, one after the other, are the text.
pub receive_cases :
    (nickname content : List ℕ)
    → length nickname < 44
    → chat_box_size ≤ length content
    → ((cuts_char content (length content) ≡ true)
        × ((fuel : ℕ) → receive fuel nickname content ≡ ok none))
      ⊎ ((cuts_char content (length content) ≡ false)
          × ((pieces : List (List ℕ)) × (receive (length content) nickname content
                ≡ ok (some pieces))
              × (joined pieces ≡ content)))
unfolding receive
receive_cases nickname content short long = elim (Bool-cases (cuts_char content (length content))) [
  | inl last ↦ inl (
    last,
    λ fuel. rw (
      le→ltb (length content) chat_box_size long,
      small,
      print_pieces-none fuel content 0 (44 - length nickname) last (omega arith) (omega arith),
    ),
  )
  | inr last ↦
      let (pieces, e, whole) =
        print_pieces-some (length content) content 0 (44 - length nickname) last (omega arith)
          (omega arith) (omega arith) in
      inr (last, (pieces, rw (le→ltb (length content) chat_box_size long, small, e), whole))
]
  where
    small : ltb (length nickname) 44 ≡ true
    small = ground arith
