-- ===== src/Legacy/Names.antt =====
-- Names in the packets of version 1.0: a `char` array of 32 bytes with a NUL behind the name.
use tcp_socket_chatting_serv.Base.{
  ℕ, ◌<◌, ◌≤◌, Bool-cases, inl, inr, ◌≡◌, refl, ap, ◌∙◌, false, List, [], ◌∷◌, ◌++◌, append_assoc,
  All, length, length-append, ◌==◌, arith, ok,
}
use tcp_socket_chatting_serv.Stream.{splice}
use tcp_socket_chatting_serv.Stream.Read.{IsChar}
use tcp_socket_chatting_serv.Stream.Write.{length-splice}
use tcp_socket_chatting_serv.Legacy.Packets.{c_str, until_nul}
use tcp_socket_chatting_serv.Legacy.Client.{name_field}

-- A string that a NUL ends.
pub c_str-chars : (xs rest : List ℕ) → All IsChar xs → c_str (xs ++ 0 ∷ rest) ≡ ok xs
unfolding c_str
c_str-chars [] rest chars = refl
c_str-chars (x ∷ xs) rest (this, chars) =
    let other : (x == 0) ≡ false = ground arith in rw (other, c_str-chars xs rest chars)

pub length-name_field :
    (junk name : List ℕ) → length junk ≡ 32 → length name < 32 → length (name_field junk name) ≡ 32
unfolding name_field
length-name_field junk name size short =
    length-splice 0 (name ++ 0 ∷ []) junk (omega (arith, length-append name (0 ∷ []))) ∙ size

-- A string without a NUL is read whole, and one with a NUL has none left.
pub until_nul-chars : (xs : List ℕ) → All IsChar xs → until_nul xs ≡ xs
unfolding until_nul
until_nul-chars [] chars = refl
until_nul-chars (x ∷ xs) (this, chars) =
    let other : (x == 0) ≡ false = ground arith in rw (other, until_nul-chars xs chars)

pub length-until_nul : (xs : List ℕ) → length (until_nul xs) ≤ length xs
unfolding until_nul
length-until_nul [] = omega arith
length-until_nul (x ∷ xs) = elim (Bool-cases (x == 0)) [
  | inl nul ↦ rw nul (omega arith)
  | inr other ↦ rw other (omega (arith, length-until_nul xs))
]

-- A name in its array is read back.
pub c_str-name_field :
    (junk name rest : List ℕ) → All IsChar name → c_str (name_field junk name ++ rest) ≡ ok name
unfolding name_field splice
c_str-name_field junk name rest chars =
    ap c_str (append_assoc (name ++ 0 ∷ []) _ rest ∙ append_assoc name (0 ∷ []) _)
    ∙ c_str-chars name _ chars
