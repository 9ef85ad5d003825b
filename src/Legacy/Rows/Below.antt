-- ===== src/Legacy/Rows/Below.antt =====
-- Where the input box stands on the screen of ChattingServer_v1.0/ChattingClient/Position.h.
use mathlib.Core.Option
use tcp_socket_chatting_serv.Base.{
  ℕ, zero, suc, ◌+◌, ◌-◌, ◌%◌, ◌^◌, ◌≤◌, ◌<◌, ◌≡◌, refl, inl, inr, Bool, true, false, ◌&&◌,
  Bool-cases, List, [], ◌∷◌, Option, none, some, length, leb, ltb, if◌then◌else◌, arith, ok,
}
use tcp_socket_chatting_serv.Legacy.Screen.{receive, print_pieces, chat_box_size}
use tcp_socket_chatting_serv.Legacy.Rows.{
  Line, more, said, Rows, at_box, next_row, print_line, print_more, print_said,
}

-- `r'` is `n` rows below `r`, and the box is right below the messages, or in its first place.
pub record IsBelow (n : ℕ) (r r' : Rows) : Type 0 where
  pub box : r'.send_y ≡ (if ltb r'.recv_y 20 then 20 else r'.recv_y + 1)
  pub down : r'.recv_y ≡ r.recv_y + n

-- The box by the row of the last message.
box_lem :
    (send recv : ℕ)
    → send ≡ (if ltb recv 20 then 20 else recv + 1)
    → recv + 1 < 2 ^ 15
    → (if leb 20 (recv + 1) && ltb (recv + 1) (2 ^ 15) then (send + 1) % 2 ^ 16 else send)
      ≡ (if ltb (recv + 1) 20 then 20 else recv + 1 + 1)
box_lem send recv box room = elim (Bool-cases (ltb recv 20)) [
  | inl above ↦ let first : send ≡ 20 = ground arith in rw first (ground arith)
  | inr past ↦ let next : send ≡ recv + 1 = ground arith in rw next (ground arith)
]

next_row-IsBelow :
    (r : Rows)
    → r.send_y ≡ (if ltb r.recv_y 20 then 20 else r.recv_y + 1)
    → r.recv_y + 1 < 2 ^ 15
    → IsBelow 1 r (next_row r)
unfolding next_row at_box
next_row-IsBelow r box room =
    let wrap : (r.recv_y + 1) % 2 ^ 16 ≡ r.recv_y + 1 = omega arith in
    record { box = rw wrap (box_lem r.send_y r.recv_y box room); down = wrap }

stay-IsBelow :
    (r : Rows) → r.send_y ≡ (if ltb r.recv_y 20 then 20 else r.recv_y + 1) → IsBelow 0 r r
stay-IsBelow r box = record { box = box; down = omega arith }

row-IsBelow :
    (line : Line) (r : Rows)
    → r.send_y ≡ (if ltb r.recv_y 20 then 20 else r.recv_y + 1)
    → r.recv_y + 1 < 2 ^ 15
    → IsBelow 1 r (print_line line (next_row r))
unfolding print_line
row-IsBelow line r box room =
    let a = next_row-IsBelow r box room in record { box = a.box; down = a.down }

-- One row, and then some more.
then-IsBelow : (n : ℕ) (r r' r'' : Rows) → IsBelow 1 r r' → IsBelow n r' r'' → IsBelow (suc n) r r''
then-IsBelow n r r' r'' a b = record { box = b.box; down = omega (arith, a.down, b.down) }

print_more-IsBelow :
    (color : ℕ) (pieces : List (List ℕ)) (r : Rows)
    → r.send_y ≡ (if ltb r.recv_y 20 then 20 else r.recv_y + 1)
    → r.recv_y + length pieces < 2 ^ 15
    → IsBelow (length pieces) r (print_more color pieces r)
unfolding print_more
print_more-IsBelow color [] r box room = stay-IsBelow r box
print_more-IsBelow color (piece ∷ pieces) r box room =
    let a = row-IsBelow (more color piece) r box (omega arith) in
    then-IsBelow (length pieces) r _ _ a (
      print_more-IsBelow color pieces (print_line (more color piece) (next_row r)) a.box
        (omega (arith, a.down)))

pub print_said-IsBelow :
    (color : ℕ) (name piece : List ℕ) (pieces : List (List ℕ)) (r : Rows)
    → r.send_y ≡ (if ltb r.recv_y 20 then 20 else r.recv_y + 1)
    → r.recv_y + length pieces + 1 < 2 ^ 15
    → IsBelow (suc (length pieces)) r (print_said color name (piece ∷ pieces) r)
unfolding print_said
print_said-IsBelow color name piece pieces r box room =
    let a = row-IsBelow (said color name piece) r box (omega arith) in
    then-IsBelow (length pieces) r _ _ a (
      print_more-IsBelow color pieces (print_line (said color name piece) (next_row r)) a.box
        (omega (arith, a.down)))

map-eq_some {ℓ κ} :
    {A : Type ℓ} {B : Type κ} (f : A → B) (o : Option A) (b : B)
    → Option.map f o ≡ some b
    → (a : A) × (o ≡ some a) × (f a ≡ b)
map-eq_some f none b e = cc
map-eq_some f (some a) b e = (a, refl, ground arith)

-- One piece, or one in front of others.
count_lem :
    (last : Bool) (piece : List ℕ) (rest : Option (List (List ℕ))) (pieces : List (List ℕ)) (n : ℕ)
    → (if last then some (piece ∷ []) else Option.map (◌∷◌ piece) rest) ≡ some pieces
    → ((l : List (List ℕ)) → rest ≡ some l → length l ≤ n)
    → length pieces ≤ suc n
count_lem true piece rest pieces n e h =
    let is : piece ∷ [] ≡ pieces = ground arith in rw (← is) (omega arith)
count_lem false piece rest pieces n e h =
    let (l, there, is) = map-eq_some (◌∷◌ piece) rest pieces e in
    rw (← is) (omega (arith, h l there))

length-print_pieces :
    (fuel : ℕ) (content : List ℕ) (start end_ptr : ℕ) (pieces : List (List ℕ))
    → print_pieces fuel content start end_ptr ≡ some pieces
    → length pieces ≤ fuel
unfolding print_pieces
length-print_pieces zero content start end_ptr pieces e = cc
length-print_pieces (suc fuel) content start end_ptr pieces e =
    count_lem _ _ _ pieces fuel e (λ l there. length-print_pieces fuel content _ _ l there)

pub length-receive :
    (fuel : ℕ) (name content : List ℕ) (pieces : List (List ℕ))
    → receive fuel name content ≡ ok (some pieces)
    → length pieces ≤ fuel + 1
unfolding receive
length-receive fuel name content pieces e = elim (Bool-cases (ltb (length content) chat_box_size)) [
  | inl short ↦ let is : content ∷ [] ≡ pieces = ground (arith, short) in rw (← is) (omega arith)
  | inr long ↦ elim (Bool-cases (ltb (length name) 44)) [
    | inl fits ↦
        let loops : print_pieces fuel content 0 (44 - length name) ≡ some pieces =
          ground (arith, long, fits) in
        omega (arith, length-print_pieces fuel content _ _ pieces loops)
    | inr over ↦ absurd (ground (arith, long, over))
  ]
]
