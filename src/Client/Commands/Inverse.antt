-- ===== src/Client/Commands/Inverse.antt =====
-- `SendChat` of ChattingServer_v1.1/ChattingClient/RoomDisplay.h, and what a line can mean.
use tcp_socket_chatting_serv.Base.{
  ℕ, suc, ◌+◌, ◌-◌, ◌≡◌, ◌≢◌, refl, sym, ap, ◌∙◌, ◌⊎◌, inl, inr, false, ◌&&◌, List, [], ◌∷◌, ◌++◌,
  none, some, length, take, drop, take-append_length, ltb, str_eq, str_eq→eq, Bool-cases, arith,
}
use tcp_socket_chatting_serv.Packet.Types.{
  Packet, pk_c_broadcast, pk_c_multicast, pk_c_unicast, pk_c_server_exit, pk_c_room_exit,
}
use tcp_socket_chatting_serv.Client.Commands.{
  starts_with, find, all_command, quit_command, lobby_command, whisper, send_chat, typed, IsCommand,
}
use tcp_socket_chatting_serv.Client.Commands.Search.{starts_with-split, find-append}

broadcast_typed :
    (text : List ℕ) → text ≢ [] → send_chat (all_command ++ text) ≡ pk_c_broadcast text
unfolding send_chat starts_with
broadcast_typed [] h = absurd (h refl)
broadcast_typed (c ∷ cs) h = ground arith

str_eq_ne : (s t : List ℕ) → s ≢ t → str_eq s t ≡ false
str_eq_ne s t h = elim (Bool-cases (str_eq s t)) [
  | inl same ↦ absurd (h (str_eq→eq s t same))
  | inr other ↦ other
]

-- A line whose first space stands behind `name` is not one for all.
not_for_all :
    (name text : List ℕ)
    → find b' ' name ≡ none
    → (name ≢ b'a' ∷ b'l' ∷ b'l' ∷ []) ⊎ (text ≡ [])
    → (starts_with all_command (b'/' ∷ (name ++ b' ' ∷ text))
        && ltb 5 (length (b'/' ∷ (name ++ b' ' ∷ text))))
      ≡ false
unfolding find starts_with
not_for_all name text h c = elim (Bool-cases (starts_with all_command line)) [
  | inl hit ↦
      let rest : List ℕ = drop 5 line in
      let split : name ++ b' ' ∷ text ≡ b'a' ∷ b'l' ∷ b'l' ∷ b' ' ∷ rest =
        ap (drop 1) (starts_with-split all_command line hit) in
      let three : length name ≡ 3 =
        ground (arith, find-append b' ' name text h, ap (find b' ') split) in
      let named : name ≡ b'a' ∷ b'l' ∷ b'l' ∷ [] =
        sym (take-append_length name (b' ' ∷ text)) ∙ ap (take (length name)) split ∙ rw three in
      elim c [ inl other ↦ absurd (other named) | inr empty ↦ rw (named, empty) ]
  | inr miss ↦ rw miss
]
  where
    line : List ℕ
    line = b'/' ∷ (name ++ b' ' ∷ text)

drop_behind : (xs : List ℕ) (x : ℕ) (ys : List ℕ) → drop (suc (length xs)) (xs ++ x ∷ ys) ≡ ys
drop_behind [] x ys = refl
drop_behind (y ∷ xs) x ys = drop_behind xs x ys

unicast_typed :
    (name text : List ℕ)
    → find b' ' name ≡ none
    → (name ≢ b'a' ∷ b'l' ∷ b'l' ∷ []) ⊎ (text ≡ [])
    → send_chat (b'/' ∷ (name ++ b' ' ∷ text)) ≡ pk_c_unicast name text
unfolding send_chat whisper starts_with find
unicast_typed name text h c =
    rw
      (
        not_for_all name text h c,
        str_eq_ne line quit_command (other quit_command refl),
        str_eq_ne line lobby_command (other lobby_command refl),
        place,
      )
      (rw (index, step, take-append_length name (b' ' ∷ text), drop_behind name b' ' text))
  where
    line : List ℕ
    line = b'/' ∷ (name ++ b' ' ∷ text)

    index : suc (length name) - 1 ≡ length name
    index = omega arith

    step : suc (length name) + 1 ≡ suc (suc (length name))
    step = omega arith

    place : find b' ' (name ++ b' ' ∷ text) ≡ some (length name)
    place = find-append b' ' name text h

    other : (command : List ℕ) → find b' ' command ≡ none → line ≢ command
    other command e same = ground (arith, ap (find b' ') same, place)

multicast_plain :
    (text : List ℕ) → starts_with (b'/' ∷ []) text ≡ false → send_chat text ≡ pk_c_multicast text
unfolding send_chat starts_with str_eq
multicast_plain [] h = refl
multicast_plain (x ∷ text) h = ground arith

multicast_bare :
    (text : List ℕ)
    → find b' ' text ≡ none
    → text ≢ quit_command
    → text ≢ lobby_command
    → send_chat text ≡ pk_c_multicast text
unfolding send_chat whisper find
multicast_bare text h q l = elim (Bool-cases (starts_with all_command text)) [
  | inl all ↦ absurd (ground (arith, h, ap (find b' ') (starts_with-split all_command text all)))
  | inr other ↦ elim (Bool-cases (starts_with (b'/' ∷ []) text)) [
    | inl slash ↦
        rw (other, str_eq_ne text quit_command q, str_eq_ne text lobby_command l, slash, h)
    | inr plain ↦ multicast_plain text plain
  ]
]

pub send_chat-typed : (p : Packet) → IsCommand p → send_chat (typed p) ≡ p
unfolding typed
send_chat-typed (pk_c_broadcast text) c = broadcast_typed text c
send_chat-typed pk_c_server_exit c = unfold send_chat starts_with str_eq in refl
send_chat-typed pk_c_room_exit c = unfold send_chat starts_with str_eq in refl
send_chat-typed (pk_c_unicast recver text) (name, c) = unicast_typed recver text name c
send_chat-typed (pk_c_multicast text) (inl plain) = multicast_plain text plain
send_chat-typed (pk_c_multicast text) (inr (bare, q, l)) = multicast_bare text bare q l
send_chat-typed p c = absurd c
