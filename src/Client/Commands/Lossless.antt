-- ===== src/Client/Commands/Lossless.antt =====
-- `SendChat` of ChattingServer_v1.1/ChattingClient/RoomDisplay.h, and the line that a packet stands
-- for.
use tcp_socket_chatting_serv.Base.{
  ℕ, suc, ◌+◌, ◌-◌, ◌≡◌, refl, sym, ap, inl, inr, Bool, true, false, ◌&&◌, List, [], ◌∷◌, Option,
  none, some, length, ltb, str_eq, str_eq→eq, Bool-cases, Option-cases, arith,
}
use tcp_socket_chatting_serv.Client.Commands.{
  starts_with, find, all_command, quit_command, lobby_command, whisper, send_chat, typed,
}
use tcp_socket_chatting_serv.Client.Commands.Search.{starts_with-split, find-split}

typed-whisper :
    (rest : List ℕ) (place : Option ℕ)
    → find b' ' (b'/' ∷ rest) ≡ place
    → typed (whisper (b'/' ∷ rest) place) ≡ b'/' ∷ rest
unfolding typed whisper find
typed-whisper rest none e = refl
typed-whisper rest (some pos) e = elim (Option-cases (find b' ' rest)) [
  | inl nowhere ↦ absurd (ground arith)
  | inr (k, there) ↦
      let at : suc k ≡ pos = ground arith in
      let index : suc k - 1 ≡ k = omega arith in
      let step : suc k + 1 ≡ suc (suc k) = omega arith in
      rw (← at, index, step) (ap (◌∷◌ b'/') (sym (find-split b' ' rest k there)))
]

&&_left : (a b : Bool) → (a && b) ≡ true → a ≡ true
&&_left true b h = refl
&&_left false b h = cc

typed_slash :
    (text : List ℕ)
    → starts_with (b'/' ∷ []) text ≡ true
    → typed (whisper text (find b' ' text)) ≡ text
unfolding starts_with
typed_slash [] h = cc
typed_slash (x ∷ rest) h =
    let at : x ≡ b'/' = ground arith in rw at (typed-whisper rest (find b' ' (b'/' ∷ rest)) refl)

-- What is typed for the packet of a line is the line.
pub typed-send_chat : (text : List ℕ) → typed (send_chat text) ≡ text
unfolding send_chat typed
typed-send_chat text = elim (Bool-cases (starts_with all_command text && ltb 5 (length text))) [
  | inl all ↦ rw all (sym (starts_with-split all_command text (&&_left _ _ all)))
  | inr not_all ↦ elim (Bool-cases (str_eq text quit_command)) [
    | inl quit ↦ rw (not_all, quit) (sym (str_eq→eq text quit_command quit))
    | inr not_quit ↦ elim (Bool-cases (str_eq text lobby_command)) [
      | inl lobby ↦ rw (not_all, not_quit, lobby) (sym (str_eq→eq text lobby_command lobby))
      | inr not_lobby ↦ elim (Bool-cases (starts_with (b'/' ∷ []) text)) [
        | inl slash ↦ rw (not_all, not_quit, not_lobby, slash) (typed_slash text slash)
        | inr plain ↦ rw (not_all, not_quit, not_lobby, plain)
      ]
    ]
  ]
]
