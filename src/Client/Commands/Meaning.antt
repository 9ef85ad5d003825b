-- ===== src/Client/Commands/Meaning.antt =====
-- `SendChat` of ChattingServer_v1.1/ChattingClient/RoomDisplay.h: every line means something, and a
-- line is taken for a packet exactly when it is what one types for the packet.
use mathlib.Core.Logic.{◌↔◌}
use tcp_socket_chatting_serv.Base.{
  ℕ, suc, ◌+◌, ◌-◌, ◌≡◌, ◌≢◌, refl, sym, ap, subst, ◌∙◌, inl, inr, Bool, true, false, ◌&&◌, List,
  [], ◌∷◌, ◌++◌, none, some, length, take, drop, ltb, ◌==◌, str_eq, str_eq→eq, str_eq_refl,
  Bool-cases, Option-cases, arith,
}
use tcp_socket_chatting_serv.Packet.Types.{Packet}
use tcp_socket_chatting_serv.Client.Commands.{
  starts_with, find, all_command, quit_command, lobby_command, whisper, send_chat, typed, IsCommand,
}
use tcp_socket_chatting_serv.Client.Commands.Search.{starts_with-split, find-split}
use tcp_socket_chatting_serv.Client.Commands.Lossless.{typed-send_chat}
use tcp_socket_chatting_serv.Client.Commands.Inverse.{send_chat-typed}

-- There is no such character in front of the first one.
find-take : (c : ℕ) (text : List ℕ) (i : ℕ) → find c text ≡ some i → find c (take i text) ≡ none
unfolding find
find-take c [] i e = cc
find-take c (x ∷ xs) i e = elim (Bool-cases (c == x)) [
  | inl hit ↦ let at : 0 ≡ i = ground arith in rw (← at) refl
  | inr miss ↦ elim (Option-cases (find c xs)) [
    | inl nowhere ↦ absurd (ground arith)
    | inr (k, there) ↦ let at : suc k ≡ i = ground arith in rw (← at, miss, find-take c xs k there)
  ]
]

ne_of_str_eq : (s t : List ℕ) → str_eq s t ≡ false → s ≢ t
ne_of_str_eq s t h same = ground (arith, ap (str_eq s) same, str_eq_refl s)

-- A line that is for all, but for a text.
only_all :
    (text : List ℕ)
    → (starts_with all_command (all_command ++ text) && ltb 5 (length (all_command ++ text)))
      ≡ false
    → text ≡ []
unfolding starts_with
only_all [] h = refl
only_all (c ∷ cs) h = absurd (ground arith)

both : (a b : Bool) → (a && b) ≡ true → (a ≡ true) × (b ≡ true)
both true b h = (refl, h)
both false b h = cc

for_all-IsCommand :
    (text : List ℕ)
    → (starts_with all_command text && ltb 5 (length text)) ≡ true
    → drop 5 text ≢ []
unfolding starts_with
for_all-IsCommand text h none_left =
    let (front, long) = both (starts_with all_command text) (ltb 5 (length text)) h in
    let split : text ≡ all_command = starts_with-split all_command text front ∙ rw none_left refl in
    ground (arith, ap (λ (l : List ℕ). ltb 5 (length l)) split)

-- A line that starts with a slash and has a space is for the name in between.
whisper-IsCommand :
    (rest : List ℕ) (k : ℕ)
    → (starts_with all_command (b'/' ∷ rest) && ltb 5 (length (b'/' ∷ rest))) ≡ false
    → find b' ' rest ≡ some k
    → IsCommand (whisper (b'/' ∷ rest) (some (suc k)))
unfolding whisper
whisper-IsCommand rest k not_all there = (
  rw index (find-take b' ' rest k there),
  elim (Bool-cases (str_eq (take k rest) named_all)) [
    | inl same ↦
        let split : rest ≡ named_all ++ b' ' ∷ text =
          find-split b' ' rest k there ∙ ap (λ l. l ++ b' ' ∷ text) (str_eq→eq _ _ same) in
        inr (rw step (only_all text (rw split at not_all)))
    | inr other ↦ inl (rw index (ne_of_str_eq _ _ other))
  ],
)
  where
    named_all : List ℕ
    named_all = b'a' ∷ b'l' ∷ b'l' ∷ []

    text : List ℕ
    text = drop (suc k) rest

    index : suc k - 1 ≡ k
    index = omega arith

    step : suc k + 1 ≡ suc (suc k)
    step = omega arith

slash-IsCommand :
    (text : List ℕ)
    → starts_with (b'/' ∷ []) text ≡ true
    → (starts_with all_command text && ltb 5 (length text)) ≡ false
    → str_eq text quit_command ≡ false
    → str_eq text lobby_command ≡ false
    → IsCommand (whisper text (find b' ' text))
unfolding starts_with find whisper
slash-IsCommand [] slash not_all not_quit not_lobby = cc
slash-IsCommand (x ∷ rest) slash not_all not_quit not_lobby = elim (Option-cases (find b' ' rest)) [
  | inl nowhere ↦
      rw (at, nowhere)
        (inr (
          rw nowhere refl,
          ne_of_str_eq _ _ (rw at at not_quit),
          ne_of_str_eq _ _ (rw at at not_lobby),
        ))
  | inr (k, there) ↦ rw (at, there) (whisper-IsCommand rest k (rw at at not_all) there)
]
  where
    at : x ≡ b'/'
    at = ground arith

send_chat-IsCommand : (text : List ℕ) → IsCommand (send_chat text)
unfolding send_chat
send_chat-IsCommand text = elim (Bool-cases (starts_with all_command text && ltb 5 (length text))) [
  | inl all ↦ rw all (for_all-IsCommand text all)
  | inr not_all ↦ elim (Bool-cases (str_eq text quit_command)) [
    | inl quit ↦ rw (not_all, quit) tt
    | inr not_quit ↦ elim (Bool-cases (str_eq text lobby_command)) [
      | inl lobby ↦ rw (not_all, not_quit, lobby) tt
      | inr not_lobby ↦ elim (Bool-cases (starts_with (b'/' ∷ []) text)) [
        | inl slash ↦
            rw (not_all, not_quit, not_lobby, slash)
              (slash-IsCommand text slash not_all not_quit not_lobby)
        | inr plain ↦ rw (not_all, not_quit, not_lobby, plain) (inl plain)
      ]
    ]
  ]
]

-- `SendChat` takes a line for a packet exactly when the packet is one that a line can mean and the
-- line is what one types for it.
pub send_chat_iff :
    (text : List ℕ) (p : Packet) → (send_chat text ≡ p) ↔ (IsCommand p × (typed p ≡ text))
send_chat_iff text p = (
  λ e. (subst IsCommand e (send_chat-IsCommand text), ap typed (sym e) ∙ typed-send_chat text),
  λ (c, e). ap send_chat (sym e) ∙ send_chat-typed p c,
)
