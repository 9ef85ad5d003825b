-- ===== src/Legacy/Rows/Shown.antt =====
-- What `Receive` of ChattingServer_v1.0/ChattingClient/Position.h prints of a text, where its loop ends.
use tcp_socket_chatting_serv.Base.{
  ℕ, suc, ◌<◌, ◌≤◌, ◌≡◌, refl, sym, ap, ◌∙◌, ◌⊎◌, inl, inr, false, Bool-cases, List, [], ◌∷◌, ◌++◌,
  append-nil, append_assoc, map, some, length, ltb, arith, ok,
}
use tcp_socket_chatting_serv.Legacy.Lines.{joined}
use tcp_socket_chatting_serv.Legacy.Screen.{receive, receive_cases, cuts_char, chat_box_size}
use tcp_socket_chatting_serv.Legacy.Rows.{
  Line, said, more, Rows, color_of, print_line, next_row, print_more, print_said, receive_rows,
}
use tcp_socket_chatting_serv.Legacy.Rows.Below.{length-receive}

-- A text that the loop comes to the end of: it is shorter than the box, or its last byte is not below
-- zero as a `char`.
abbrev pub IsPrinted : List ℕ → Type 0
IsPrinted text = (length text < chat_box_size) ⊎ (cuts_char text (length text) ≡ false)

-- What is printed on some rows, without the places.
unfoldable pub printed : List (ℕ × Line) → List Line
printed [] = []
printed ((_, line) ∷ lines) = line ∷ printed lines

-- A text in pieces, and the screen with them: the first under the sender's name, each in the color.
abbrev pub Shows : ℕ → List ℕ → List ℕ → Rows → Rows → List ℕ → List (List ℕ) → Type 0
Shows color name text r r' piece pieces =
    (piece ++ joined pieces ≡ text)
    × (printed r'.lines ≡ printed r.lines ++ said color name piece ∷ map (more color) pieces)

printed-append : (xs ys : List (ℕ × Line)) → printed (xs ++ ys) ≡ printed xs ++ printed ys
unfolding printed
printed-append [] ys = refl
printed-append ((_, line) ∷ xs) ys = ap (◌∷◌ line) (printed-append xs ys)

print_more-printed :
    (color : ℕ) (pieces : List (List ℕ)) (r : Rows)
    → printed (print_more color pieces r).lines ≡ printed r.lines ++ map (more color) pieces
unfolding print_more print_line next_row printed
print_more-printed color [] r = sym (append-nil (printed r.lines))
print_more-printed color (piece ∷ pieces) r =
    print_more-printed color pieces (print_line (more color piece) (next_row r))
    ∙ ap (λ l. l ++ map (more color) pieces) (printed-append r.lines _)
    ∙ append_assoc (printed r.lines) (more color piece ∷ []) (map (more color) pieces)

print_said-printed :
    (color : ℕ) (name piece : List ℕ) (pieces : List (List ℕ)) (r : Rows)
    → printed (print_said color name (piece ∷ pieces) r).lines
      ≡ printed r.lines ++ said color name piece ∷ map (more color) pieces
unfolding print_said print_line next_row printed
print_said-printed color name piece pieces r =
    print_more-printed color pieces (print_line (said color name piece) (next_row r))
    ∙ ap (λ l. l ++ map (more color) pieces) (printed-append r.lines _)
    ∙ append_assoc (printed r.lines) (said color name piece ∷ []) (map (more color) pieces)

module _ (name text : List ℕ) (short : length name < 44) (ends : IsPrinted text) where
  first-piece :
      (pieces : List (List ℕ))
      → chat_box_size ≤ length text
      → receive (length text) name text ≡ ok (some pieces)
      → joined pieces ≡ text
      → (piece : List ℕ) × (rest : List (List ℕ)) × (receive (length text) name text
          ≡ ok (some (piece ∷ rest)))
        × (piece ++ joined rest ≡ text)
  unfolding joined
  first-piece [] long e whole = absurd (ground (arith, ap length whole))
  first-piece (piece ∷ rest) long e whole = (piece, rest, e, whole)

  receive-pieces :
      (piece : List ℕ) × (pieces : List (List ℕ)) × (receive (length text) name text
        ≡ ok (some (piece ∷ pieces)))
      × (piece ++ joined pieces ≡ text)
  unfolding joined
  receive-pieces = elim (Bool-cases (ltb (length text) chat_box_size)) [
    | inl fits ↦ (text, [], unfold receive in rw fits refl, append-nil text)
    | inr long ↦ elim (receive_cases name text short (ground arith)) [
      | inl (last, never) ↦
          absurd (elim ends [ inl fits ↦ ground arith | inr other ↦ ground arith ])
      | inr (last, (pieces, e, whole)) ↦ first-piece pieces (ground arith) e whole
    ]
  ]

  -- The text is printed, in pieces.
  pub receive_rows-Shows :
      (action : ℕ) (r : Rows)
      → (r' : Rows) × (piece : List ℕ) × (pieces : List (List ℕ)) × (receive_rows
            (length text)
            name
            text
            action
            r
          ≡ ok (some r'))
        × Shows (color_of action) name text r r' piece pieces
        × (r' ≡ print_said (color_of action) name (piece ∷ pieces) r)
        × (length pieces < suc (length text))
  unfolding receive_rows
  receive_rows-Shows action r =
      let (piece, pieces, e, whole) = receive-pieces in
      (
        print_said (color_of action) name (piece ∷ pieces) r,
        piece,
        pieces,
        rw e refl,
        (whole, print_said-printed (color_of action) name piece pieces r),
        refl,
        omega (arith, length-receive (length text) name text (piece ∷ pieces) e),
      )
