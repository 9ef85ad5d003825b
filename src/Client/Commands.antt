-- ===== src/Client/Commands.antt =====
-- ChattingServer_v1.1/ChattingClient/RoomDisplay.h, `SendChat`: a typed line as a packet.
mod Search
mod Lossless
mod Inverse
pub mod Meaning
use mathlib.Core.Option
use tcp_socket_chatting_serv.Base.{
  ℕ, zero, suc, ◌+◌, ◌-◌, ◌≡◌, ◌≢◌, refl, sym, ap, ◌∙◌, ◌⊎◌, inl, inr, Bool, true, false, ◌&&◌,
  List, [], ◌∷◌, ◌++◌, Option, none, some, length, take, drop, take-append_length, ltb, ◌==◌,
  if◌then◌else◌, str_eq, str_eq→eq, str_eq_refl, Bool-cases, Option-cases, ==_iff, arith,
}
use tcp_socket_chatting_serv.Packet.Types.{
  Packet, pk_c_broadcast, pk_c_multicast, pk_c_unicast, pk_c_server_exit, pk_c_room_exit,
}

-- `text.find(prefix) == 0`, and `text.find(ch)`.
unfoldable pub starts_with : List ℕ → List ℕ → Bool
starts_with [] text = true
starts_with (c ∷ cs) [] = false
starts_with (c ∷ cs) (x ∷ xs) = (c == x) && starts_with cs xs

unfoldable pub find : ℕ → List ℕ → Option ℕ
find c [] = none
find c (x ∷ xs) = let rest = Option.map suc (find c xs) in if c == x then some 0 else rest

-- `"/all "`, `"/quit"`, `"/lobby"`.
abbrev pub all_command : List ℕ
all_command = b'/' ∷ b'a' ∷ b'l' ∷ b'l' ∷ b' ' ∷ []

abbrev pub quit_command : List ℕ
quit_command = b'/' ∷ b'q' ∷ b'u' ∷ b'i' ∷ b't' ∷ []

abbrev pub lobby_command : List ℕ
lobby_command = b'/' ∷ b'l' ∷ b'o' ∷ b'b' ∷ b'b' ∷ b'y' ∷ []

-- A line that begins with a slash, by its first space: `ParseForNickname` and the text behind it.
unfoldable pub whisper : List ℕ → Option ℕ → Packet
whisper text none = pk_c_multicast text
whisper text (some pos) = pk_c_unicast (take (pos - 1) (drop 1 text)) (drop (pos + 1) text)

-- `RoomDisplay::SendChat`.
unfoldable pub send_chat : List ℕ → Packet
send_chat text =
    if starts_with all_command text && ltb 5 (length text)
    then pk_c_broadcast (drop 5 text)
    else if str_eq text quit_command
    then pk_c_server_exit
    else if str_eq text lobby_command
    then pk_c_room_exit
    else if starts_with (b'/' ∷ []) text
    then whisper text (find b' ' text)
    else pk_c_multicast text

-- What a user types for a packet.
unfoldable pub typed : Packet → List ℕ
typed (pk_c_broadcast text) = all_command ++ text
typed pk_c_server_exit = quit_command
typed pk_c_room_exit = lobby_command
typed (pk_c_unicast recver text) = b'/' ∷ (recver ++ b' ' ∷ text)
typed (pk_c_multicast text) = text
typed packet = []

-- What a line can mean: a text for all that is not empty, a text for a name without a space (but not
-- one for the name `all`), and any other line that is none of these or of the two bare commands.
abbrev pub IsCommand : Packet → Type 0
IsCommand (pk_c_broadcast text) = text ≢ []
IsCommand pk_c_server_exit = Unit {0}
IsCommand pk_c_room_exit = Unit {0}
IsCommand (pk_c_unicast recver text) =
    (find b' ' recver ≡ none) × ((recver ≢ b'a' ∷ b'l' ∷ b'l' ∷ []) ⊎ (text ≡ []))
IsCommand (pk_c_multicast text) =
    (starts_with (b'/' ∷ []) text ≡ false)
    ⊎ ((find b' ' text ≡ none) × (text ≢ quit_command) × (text ≢ lobby_command))
IsCommand packet = ⊥
