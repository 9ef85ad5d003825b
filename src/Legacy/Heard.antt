-- ===== src/Legacy/Heard.antt =====
-- What a client of version 1.0 prints of a line that it receives: `RecvThread` and `processRecvMsg` of
-- ChattingServer_v1.0/ChattingClient/IOCPClient.cpp.
use mathlib.Core.Option
use tcp_socket_chatting_serv.Base.{
  ℕ, ◌+◌, ◌-◌, ◌≤◌, ◌<◌, ◌≡◌, refl, sym, ap, ◌∙◌, true, List, ◌++◌, append_assoc, some, All, take,
  drop, length, length-append, drop-append_length, take_past, take-fill, fill, leb, ltb, le→leb,
  arith, Result, ok, fault, ◌>>=◌,
}
use tcp_socket_chatting_serv.Bytes.{le_bytes, from_le, length-le_bytes, from_le-le_bytes}
use tcp_socket_chatting_serv.Stream.{splice}
use tcp_socket_chatting_serv.Stream.Read.{IsChar}
use tcp_socket_chatting_serv.Stream.Write.{splice_front}
use tcp_socket_chatting_serv.Legacy.Packets.{chat_multicast, packet_type, c_str, name_at}
use tcp_socket_chatting_serv.Legacy.Client.{ChatClient, name_field}
use tcp_socket_chatting_serv.Legacy.Names.{c_str-chars, length-name_field, c_str-name_field}
use tcp_socket_chatting_serv.Legacy.Messages.{chat_bytes}
use tcp_socket_chatting_serv.Legacy.Rows.{
  Rows, receive_rows, copy_text, show_text, process_recv_msg, recv_round,
}

-- What a step gives, beside what it leaves alone.
paired {ℓ κ μ} :
    {A : Type ℓ} {B : Type κ} {C : Type μ} (m : Result A) (f : A → B) (c : C)
    → ◌>>=◌ {B = B × C} (m >>= (λ a. ok (f a))) (λ b. ok (b, c))
      ≡ ◌>>=◌ {B = B × C} m (λ a. ok (f a, c))
paired (fault e) f c = refl
paired (ok a) f c = refl

module _ (junk name text content : List ℕ) (size : length junk ≡ 32) (short : length name < 32)
    (fits : length text ≤ 600) (chars : All IsChar name) (plain : All IsChar text) where
  field : List ℕ
  field = name_field junk name

  whole : length field ≡ 32
  unfolding field
  whole = length-name_field junk name size short

  zeros : List ℕ
  zeros = fill (988 - length text) 0

  -- The array once the packet came.
  received : List ℕ
  unfolding field zeros
  received =
      le_bytes 2 (32 + length text) ++ (le_bytes 2 chat_multicast ++ (field ++ (text ++ zeros)))

  pub length-chat_bytes : length (chat_bytes junk chat_multicast name text) ≡ 36 + length text
  unfolding chat_bytes field
  length-chat_bytes = omega (
    arith,
    length-append (le_bytes 2 (32 + length text)) (le_bytes 2 chat_multicast ++ (field ++ text)),
    length-append (le_bytes 2 chat_multicast) (field ++ text),
    length-append field text,
    length-le_bytes 2 (32 + length text),
    length-le_bytes 2 chat_multicast,
    whole,
  )

  splice-received : splice 0 (chat_bytes junk chat_multicast name text) (fill 1024 0) ≡ received
  unfolding received field zeros chat_bytes le_bytes
  splice-received =
      splice_front (chat_bytes junk chat_multicast name text)
      ∙ ap (λ l. le_bytes 2 (32 + length text) ++ (le_bytes 2 chat_multicast ++ l))
          (append_assoc field text _
            ∙ ap (λ n. field ++ (text ++ fill n 0)) (omega (arith, length-chat_bytes)))

  packet_type-received : packet_type received ≡ chat_multicast
  unfolding packet_type received le_bytes from_le
  packet_type-received = refl

  name_at-received : name_at 4 received ≡ ok name
  unfolding name_at received le_bytes field
  name_at-received = c_str-name_field junk name (text ++ zeros) chars

  -- `content` once the text was copied, with the 32 bytes behind it.
  copied_text : List ℕ
  copied_text = splice 0 (text ++ fill 32 0) content

  size-received : from_le (take 2 received) ≡ 32 + length text
  unfolding received le_bytes
  size-received = from_le-le_bytes 2 (32 + length text) (omega arith)

  text-received : take (32 + length text) (drop 36 received) ≡ text ++ fill 32 0
  unfolding received le_bytes zeros
  text-received =
      ap (λ n. take (32 + length text) (drop n (field ++ (text ++ zeros)))) (sym whole)
      ∙ ap (take (32 + length text)) (drop-append_length field (text ++ zeros))
      ∙ ap (λ n. take n (text ++ zeros)) (omega arith)
      ∙ take_past 32 text zeros
      ∙ ap (◌++◌ text) (take-fill 32 (988 - length text) 0 (omega arith))

  copy_text-received : copy_text received content ≡ ok copied_text
  unfolding copy_text copied_text
  copy_text-received =
      let room : leb (36 + (32 + length text)) 1024 ≡ true = le→leb _ 1024 (omega arith) in
      rw (size-received, room, text-received)

  c_str-copied_text : c_str copied_text ≡ ok text
  unfolding copied_text splice fill
  c_str-copied_text = ap c_str (append_assoc text (fill 32 0) _) ∙ c_str-chars text _ plain

  -- A round of the receiving thread prints the text under the name.
  pub recv_round-heard :
      (fuel : ℕ) (r : Rows) (c : ChatClient)
      → recv_round fuel (some (chat_bytes junk chat_multicast name text)) content r c ≡ (
          receive_rows fuel name text chat_multicast r
          >>= (λ rows. ok (Option.map (λ l. (l, splice 0 (text ++ fill 32 0) content)) rows, c)))
  unfolding recv_round process_recv_msg show_text receive_rows copied_text
  recv_round-heard fuel r c =
      let small : ltb (length (chat_bytes junk chat_multicast name text)) 1024 ≡ true =
        ground (arith, length-chat_bytes) in
      rw
        (
          small, splice-received, packet_type-received, copy_text-received, name_at-received,
          c_str-copied_text,
        )
        (paired (receive_rows fuel name text chat_multicast r) _ c)
