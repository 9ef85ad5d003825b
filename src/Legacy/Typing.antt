-- ===== src/Legacy/Typing.antt =====
-- The loops over what is typed in ChattingServer_v1.0/ChattingClient/IOCPClient.cpp: `SetNickname`, and
-- `SendThread` with the way back to the lobby.
use tcp_socket_chatting_serv.Base.{
  ℕ, suc, refl, get_elem?, ◌<◌, ◌≡◌, ◌≢◌, sym, ap, subst, ◌∙◌, Bool, true, false, Bool-cases, inl,
  inr, List, [], ◌∷◌, ◌++◌, Option, none, some, take, drop, length, leb, ltb, ◌==◌, if◌then◌else◌,
  arith, Result, ok, >>=-eq_ok, ok_injective, ◌>>=◌, guard, out_of_range,
}
use tcp_socket_chatting_serv.Bytes.{from_le}
use tcp_socket_chatting_serv.Stream.{splice}
use tcp_socket_chatting_serv.Containers.{contains}
use tcp_socket_chatting_serv.Legacy.Packets.{
  room_exit, server_enter, nickname_already_exist, until_nul,
}
use tcp_socket_chatting_serv.Legacy.Client.{
  ChatClient, NicknameMessage, disconnected, too_long, already_exist, trim_needed, create_success,
  check_answer, nickname_check, LobbyKey, choose_room, lobby_enter, send_bytes, system_bytes,
}
use tcp_socket_chatting_serv.Legacy.Messages.{uninitialized_action, process_send_msg}

-- How the loop of `SetNickname` goes on with a message: it ends, or takes the next line.
unfoldable pub after_check :
    ChatClient
    → NicknameMessage
    → Result (Option (ChatClient × Bool))
    → Result (Option (ChatClient × Bool))
after_check c create_success rest = ok (some (c, true))
after_check c disconnected rest = ok (some (c, false))
after_check c message rest = rest

-- `SetNickname` on the lines that are typed; `answers` gives what `recv` gives after so many sends.
-- Nothing where it still waits for a line.
unfoldable pub set_nickname :
    List ℕ
    → (ℕ → Bool)
    → (ℕ → Option (List ℕ))
    → List (List ℕ)
    → ChatClient
    → Result (Option (ChatClient × Bool))
unfolding nickname_check after_check until_nul
set_nickname junk sends answers [] c = ok none
set_nickname junk sends answers ([] ∷ lines) c = set_nickname junk sends answers lines c
set_nickname junk sends answers ((ch ∷ name) ∷ lines) c = do
  (c', message) ← nickname_check junk sends (answers (length c.sent)) (until_nul (ch ∷ name)) c
  after_check c' message (set_nickname junk sends answers lines c')

-- `Lobby`: the keys, and what is sent once a room is chosen; nothing where none is.
unfoldable pub enter_from_lobby : List ℕ → (ℕ → Bool) → Option ℕ → ChatClient → Option ChatClient
unfolding lobby_enter
enter_from_lobby junk sends none c = none
enter_from_lobby junk sends (some room_no) c = some (lobby_enter junk sends room_no c).0

unfoldable pub lobby : List ℕ → (ℕ → Bool) → List LobbyKey → ChatClient → Option ChatClient
unfolding enter_from_lobby choose_room
lobby junk sends keys c = enter_from_lobby junk sends (choose_room 1 keys) c

-- `SendThread` once a line was sent: it closes, goes to the lobby, or goes on.
unfoldable pub after_send : List ℕ → (ℕ → Bool) → List LobbyKey → ChatClient × ℕ → Option ChatClient
unfolding lobby
after_send junk sends keys (c, action) =
    if action == uninitialized_action
    then some (record c { is_worker_run = false })
    else if action == room_exit
    then lobby junk sends keys c
    else some c

-- A round of `SendThread` in a room, on the lines that are typed, empty ones passed over.
unfoldable pub send_round :
    List ℕ → (ℕ → Bool) → List (List ℕ) → List LobbyKey → ChatClient → Result (Option ChatClient)
unfolding process_send_msg after_send
send_round junk sends [] keys c = ok none
send_round junk sends ([] ∷ lines) keys c = send_round junk sends lines keys c
send_round junk sends ((ch ∷ line) ∷ lines) keys c =
    if c.is_worker_run
    then (do sent ← process_send_msg junk sends (ch ∷ line) c; ok (after_send junk sends keys sent))
    else ok (some c)

-- A name that the packets have room for, without a space or a NUL.
abbrev pub IsNickname : List ℕ → Type 0
IsNickname name = (length name < 31) × (contains b' ' name ≡ false) × (contains 0 name ≡ false)

-- A name that is what a line that is not empty has up to its first NUL.
abbrev pub Typed : List (List ℕ) → List ℕ → Type 0
Typed lines name =
    (k : ℕ) × (line : List ℕ) × (get_elem? lines k ≡ some line)
    × (line ≢ [])
    × (name ≡ until_nul line)

-- A name that was not refused is the client's.
chosen_name :
    (taken : Bool) (name : List ℕ) (c c' : ChatClient)
    → Path
        (ChatClient × NicknameMessage)
        (if taken then (c, already_exist) else (record c { nickname = name }, create_success))
        (c', create_success)
    → c'.nickname ≡ name
chosen_name true name c c' e =
    absurd (ground (arith, ap (λ (x : ChatClient × NicknameMessage). x.1) e))
chosen_name false name c c' e = ap (λ (x : ChatClient × NicknameMessage). x.0.nickname) (sym e)

check_answer-name :
    (junk name : List ℕ) (answer : Option (List ℕ)) (c c' : ChatClient)
    → check_answer junk name answer c ≡ ok (c', create_success)
    → c'.nickname ≡ name
unfolding check_answer
check_answer-name junk name none c c' e = absurd (ground (arith, ok_injective _ _ e))
check_answer-name junk name (some answer) c c' e =
    let (_, _, e₁) = >>=-eq_ok (guard (ltb (length answer) 15) out_of_range) _ e in
    chosen_name
      (from_le (take 4 (drop 4 (splice 0 (answer ++ 0 ∷ []) junk))) == nickname_already_exist) name
      c c' (ok_injective _ _ e₁)

-- The check of a name, without its message where it is refused for another reason.
abbrev Chosen : List ℕ → ChatClient × NicknameMessage → Type 0
Chosen name (c, create_success) = (c.nickname ≡ name) × IsNickname name
Chosen name (c, message) = Unit {0}

sent_name :
    (junk name : List ℕ) (answer : Option (List ℕ)) (sent : ChatClient × Bool)
    (r : ChatClient × NicknameMessage)
    → IsNickname name
    → (if sent.1 then check_answer junk name answer sent.0 else ok (sent.0, disconnected)) ≡ ok r
    → Chosen name r
sent_name junk name answer (c, true) (c', create_success) good e =
    (check_answer-name junk name answer c c' e, good)
sent_name junk name answer (c, true) (c', disconnected) good e = tt
sent_name junk name answer (c, true) (c', too_long) good e = tt
sent_name junk name answer (c, true) (c', already_exist) good e = tt
sent_name junk name answer (c, true) (c', trim_needed) good e = tt
sent_name junk name answer (c, false) r good e = subst (Chosen name) (ok_injective _ r e) tt

nickname_check-Chosen :
    (junk : List ℕ) (sends : ℕ → Bool) (answer : Option (List ℕ)) (name : List ℕ) (c : ChatClient)
    (r : ChatClient × NicknameMessage)
    → contains 0 name ≡ false
    → nickname_check junk sends answer name c ≡ ok r
    → Chosen name r
unfolding nickname_check
nickname_check-Chosen junk sends answer name c r whole e =
    elim (Bool-cases (leb 31 (length name))) [
      | inl long ↦ subst (Chosen name) (ok_injective (c, too_long) r (rw long at e)) tt
      | inr short ↦ elim (Bool-cases (contains b' ' name)) [
        | inl space ↦
            subst (Chosen name) (ok_injective (c, trim_needed) r (rw (short, space) at e)) tt
        | inr solid ↦
            sent_name junk name answer (send_bytes sends (system_bytes server_enter name) c) r
              (ground arith, solid, whole) (rw (short, solid) at e)
      ]
    ]

-- The loop once a message came.
after_check-Chosen :
    (P : List ℕ → Type 0) (name : List ℕ) (c' c'' : ChatClient) (message : NicknameMessage)
    (rest : Result (Option (ChatClient × Bool)))
    → Chosen name (c', message)
    → (IsNickname name → P name)
    → (rest ≡ ok (some (c'', true)) → P c''.nickname)
    → after_check c' message rest ≡ ok (some (c'', true))
    → P c''.nickname
unfolding after_check
after_check-Chosen P name c' c'' create_success rest (is, good) now later e =
    let same : c' ≡ c'' = ground arith in
    subst P (sym is ∙ ap (λ (c : ChatClient). c.nickname) same) (now good)
after_check-Chosen P name c' c'' disconnected rest chosen now later e = absurd (ground arith)
after_check-Chosen P name c' c'' too_long rest chosen now later e = later e
after_check-Chosen P name c' c'' already_exist rest chosen now later e = later e
after_check-Chosen P name c' c'' trim_needed rest chosen now later e = later e

contains-until_nul : (line : List ℕ) → contains 0 (until_nul line) ≡ false
unfolding contains until_nul
contains-until_nul [] = refl
contains-until_nul (ch ∷ line) = elim (Bool-cases (ch == 0)) [
  | inl nul ↦ rw nul refl
  | inr other ↦
      let away : (0 == ch) ≡ false = ground arith in rw (other, away, contains-until_nul line) refl
]

later-Typed :
    (first : List ℕ) (lines : List (List ℕ)) (name : List ℕ)
    → Typed lines name × IsNickname name
    → Typed (first ∷ lines) name × IsNickname name
later-Typed first lines name ((k, line, at, some_, is), good) = ((suc k, line, at, some_, is), good)

-- In version 1.0, whatever lines are typed and whatever the server answers: once the client has
-- set its name, the name is what one of the lines, which is not empty, has up to its first NUL,
-- and it has fewer than 31 bytes, no space and no NUL.
pub set_nickname-IsNickname :
    (junk : List ℕ) (sends : ℕ → Bool) (answers : ℕ → Option (List ℕ)) (lines : List (List ℕ))
    (c c' : ChatClient)
    → set_nickname junk sends answers lines c ≡ ok (some (c', true))
    → Typed lines c'.nickname × IsNickname c'.nickname
unfolding set_nickname
set_nickname-IsNickname junk sends answers [] c c' e = absurd (ground arith)
set_nickname-IsNickname junk sends answers ([] ∷ lines) c c' e =
    later-Typed [] lines c'.nickname (set_nickname-IsNickname junk sends answers lines c c' e)
set_nickname-IsNickname junk sends answers ((ch ∷ line) ∷ lines) c c' e =
    let name : List ℕ = until_nul (ch ∷ line) in
    let (r, checked, e₁) =
      >>=-eq_ok (nickname_check junk sends (answers (length c.sent)) name c) _ e in
    after_check-Chosen (λ n. Typed ((ch ∷ line) ∷ lines) n × IsNickname n) name r.0 c' r.1
      (set_nickname junk sends answers lines r.0)
      (nickname_check-Chosen junk sends (answers (length c.sent)) name c r
        (contains-until_nul (ch ∷ line)) checked)
      (λ good. ((0, ch ∷ line, refl, (λ n. ground (arith, ap length n)), refl), good))
      (λ rest.
        later-Typed (ch ∷ line) lines c'.nickname
          (set_nickname-IsNickname junk sends answers lines r.0 c' rest))
      e₁
