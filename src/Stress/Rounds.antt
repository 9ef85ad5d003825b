-- ===== src/Stress/Rounds.antt =====
-- The rounds of the threads of ChattingServer_v1.0/StressServer/StressServer.cpp, in any order: what
-- they are, and that none faults.
use tcp_socket_chatting_serv.Base.{
  ℕ, ◌+◌, ◌%◌, ◌<◌, ◌≡◌, refl, sym, ◌∙◌, inl, inr, Bool, true, false, not, ◌&&◌, ◌||◌, List, [],
  ◌∷◌, Option, none, some, All, length, length-append, leb, ltb, le→leb, get_elem?, ◌==◌,
  Bool-cases, if◌then◌else◌, arith, Result, ok,
}
use native.Mathlib.Nat.{mod-lt}
use tcp_socket_chatting_serv.Legacy.User.{IoOperation, io_recv, io_send, io_close}
use tcp_socket_chatting_serv.Legacy.Slots.{set_at, length-set_at}
use tcp_socket_chatting_serv.Legacy.Packets.{until_nul}
use tcp_socket_chatting_serv.Legacy.Names.{length-until_nul}
use tcp_socket_chatting_serv.Stress.Clients.{
  StressClient, new_client, close, Answers, create, StressServer, name_for, create_client,
}
use tcp_socket_chatting_serv.Stress.Threads.{
  max_client, connecter_round, client_at, send_round, sender_round, Completion, close_at, bind_at,
  completed, handle, worker_round,
}
use tcp_socket_chatting_serv.Stress.Steady.{
  IsSteady, get_elem?-found, All-get_elem?, Numbered-append, Numbered-set_at, send_msg-index,
  bind_recv-index, create-index, init_packet-index,
}

-- A round of a thread, with what it is given: the answers of the system, the numbers that `rand` gives,
-- or a completion.
pub data Round : Type 0 where
  connects : (junk : List ℕ) (sends : ℕ → Bool) (a : Answers) → Round
  talks : (junk : List ℕ) (sends : ℕ → Bool) (cast_type sender : ℕ) → Round
  completes : (c : Completion) (recv_ok : Bool) → Round

unfoldable pub round : Round → StressServer → Result StressServer
round (connects junk sends a) s = connecter_round junk sends a s
round (talks junk sends cast_type sender) s = sender_round junk sends cast_type sender s
round (completes c recv_ok) s = worker_round c recv_ok s

-- The sender is below the number of clients, and a completion is that of a client in the list.
abbrev pub IsPossible : Round → StressServer → Type 0
IsPossible (connects junk sends a) s = Unit {0}
IsPossible (talks junk sends cast_type sender) s =
    (s.client_count ≡ 0 → ⊥) → sender < s.client_count
IsPossible (completes c recv_ok) s = c.index < s.client_count

-- The round goes on, with a steady generator.
abbrev pub GoesOn : Result StressServer → Type 0
GoesOn r = (s' : StressServer) × (r ≡ ok s') × IsSteady s'

name_for-found :
    (count : ℕ) (names : List (List ℕ))
    → 0 < length names
    → All (λ (n : List ℕ). length n < 32) names
    → (name : List ℕ) × (name_for count names ≡ ok name) × (length name < 32)
unfolding name_for
name_for-found count [] h short = absurd (omega arith)
name_for-found count (n ∷ names) h short =
    let (name, at) = get_elem?-found (n ∷ names) (count % length (n ∷ names)) (mod-lt count h) in
    let some_ : (length (n ∷ names) == 0) ≡ false = ground arith in
    rw (at, some_) (name, refl, All-get_elem? _ (n ∷ names) _ name short at)

stay-GoesOn : (s : StressServer) → IsSteady s → GoesOn (ok s)
stay-GoesOn s h = (s, refl, h)

create_client-GoesOn :
    (junk : List ℕ) (sends : ℕ → Bool) (a : Answers) (s : StressServer)
    → IsSteady s
    → s.client_count < max_client
    → GoesOn (create_client junk sends a s.nicknames s)
unfolding create_client
create_client-GoesOn junk sends a s h more =
    let (name, found, short) = name_for-found s.client_count s.nicknames h.some_name h.names in
    let (c, made, same) =
      init_packet-index junk sends name (create a (new_client (length s.clients))) short in
    rw (found, made)
      (
        _,
        refl,
        record {
          counted = omega (arith, h.counted, length-append s.clients (c ∷ []));
          most = omega arith;
          numbered = Numbered-append 0 s.clients c h.numbered (
              unfold new_client in
              omega (arith, same, create-index a (new_client (length s.clients))));
          names = h.names;
          some_name = h.some_name;
          texts = h.texts;
          next = h.next;
        },
      )

-- A client in the list, replaced by one with the same index.
put-IsSteady :
    (s : StressServer) (i next : ℕ) (c d : StressClient)
    → IsSteady s
    → get_elem? s.clients i ≡ some c
    → d.index ≡ c.index
    → next < length s.contents
    → IsSteady (record s { clients = set_at i d s.clients; content_index = next })
put-IsSteady s i next c d h at same bound = record {
  counted = h.counted ∙ sym (length-set_at i d s.clients);
  most = h.most;
  numbered = Numbered-set_at 0 i s.clients c d h.numbered at same;
  names = h.names;
  some_name = h.some_name;
  texts = h.texts;
  next = bound;
}

-- The next text, in turn.
turn_lem : (i n : ℕ) → i < n → (if leb n (i + 1) then 0 else i + 1) < n
turn_lem i n h = elim (Bool-cases (leb n (i + 1))) [
  | inl last ↦ rw last (omega arith)
  | inr more ↦ rw more (ground arith)
]

send_round-GoesOn :
    (junk : List ℕ) (sends : ℕ → Bool) (cast_type sender : ℕ) (s : StressServer)
    → IsSteady s
    → sender < s.client_count
    → GoesOn (send_round junk sends cast_type sender s)
unfolding send_round client_at
send_round-GoesOn junk sends cast_type sender s h there =
    let (c, at) = get_elem?-found s.clients sender (omega (arith, h.counted)) in
    let (content, text) = get_elem?-found s.contents s.content_index h.next in
    let short : length content < 900 =
      All-get_elem? _ s.contents s.content_index content h.texts text in
    rw
      (
        at,
        text,
        le→leb (length (until_nul content) + 1) 900 (omega (arith, length-until_nul content)),
      )
      (
        _,
        refl,
        put-IsSteady s sender _ c _ h at (send_msg-index sends _ c)
            (turn_lem s.content_index (length s.contents) h.next),
      )

close_at-GoesOn :
    (i : ℕ) (s : StressServer) → IsSteady s → i < s.client_count → GoesOn (close_at i s)
unfolding close_at client_at close
close_at-GoesOn i s h there =
    let (c, at) = get_elem?-found s.clients i (omega (arith, h.counted)) in
    rw at (_, refl, put-IsSteady s i s.content_index c _ h at refl h.next)

bind_at-GoesOn :
    (b : Bool) (i : ℕ) (s : StressServer) → IsSteady s → i < s.client_count → GoesOn (bind_at b i s)
unfolding bind_at client_at
bind_at-GoesOn b i s h there =
    let (c, at) = get_elem?-found s.clients i (omega (arith, h.counted)) in
    rw at (_, refl, put-IsSteady s i s.content_index c _ h at (bind_recv-index b c) h.next)

-- A guarded round.
if-GoesOn :
    (b : Bool) (r r' : Result StressServer)
    → (b ≡ true → GoesOn r)
    → GoesOn r'
    → GoesOn (if b then r else r')
if-GoesOn true r r' go stay = go refl
if-GoesOn false r r' go stay = stay

connecter_round-GoesOn :
    (junk : List ℕ) (sends : ℕ → Bool) (a : Answers) (s : StressServer)
    → IsSteady s
    → GoesOn (connecter_round junk sends a s)
unfolding connecter_round
connecter_round-GoesOn junk sends a s h =
    if-GoesOn (s.is_connecter_run && ltb s.client_count max_client) _ _
      (λ on. create_client-GoesOn junk sends a s h (ground arith)) (stay-GoesOn s h)

sender_round-GoesOn :
    (junk : List ℕ) (sends : ℕ → Bool) (cast_type sender : ℕ) (s : StressServer)
    → IsSteady s
    → ((s.client_count ≡ 0 → ⊥) → sender < s.client_count)
    → GoesOn (sender_round junk sends cast_type sender s)
unfolding sender_round
sender_round-GoesOn junk sends cast_type sender s h there =
    if-GoesOn (s.is_sender_run && not (s.client_count == 0)) _ _
      (λ on. send_round-GoesOn junk sends cast_type sender s h (there (λ z. ground (arith, z))))
      (stay-GoesOn s h)

completed-GoesOn :
    (c : Completion) (b : Bool) (operation : IoOperation) (s : StressServer)
    → IsSteady s
    → c.index < s.client_count
    → GoesOn (completed c b operation s)
unfolding completed
completed-GoesOn c b io_recv s h there = bind_at-GoesOn b c.index s h there
completed-GoesOn c b io_send s h there = stay-GoesOn s h
completed-GoesOn c b io_close s h there = stay-GoesOn s h

-- A worker that was told to end changes its flag only.
ended-GoesOn :
    (b : Bool) (s : StressServer)
    → IsSteady s
    → GoesOn (ok (if b then record s { is_worker_run = false } else s))
ended-GoesOn true s h = (
  _,
  refl,
  record {
    counted = h.counted;
    most = h.most;
    numbered = h.numbered;
    names = h.names;
    some_name = h.some_name;
    texts = h.texts;
    next = h.next;
  },
)
ended-GoesOn false s h = stay-GoesOn s h

handle-GoesOn :
    (c : Completion) (b : Bool) (operation : Option IoOperation) (s : StressServer)
    → IsSteady s
    → c.index < s.client_count
    → GoesOn (handle c b operation s)
unfolding handle
handle-GoesOn c b none s h there = ended-GoesOn (c.success && (c.io_size == 0)) s h
handle-GoesOn c b (some operation) s h there =
    if-GoesOn (not c.success || (c.io_size == 0)) _ _ (λ lost. close_at-GoesOn c.index s h there)
      (completed-GoesOn c b operation s h there)

worker_round-GoesOn :
    (c : Completion) (b : Bool) (s : StressServer)
    → IsSteady s
    → c.index < s.client_count
    → GoesOn (worker_round c b s)
unfolding worker_round
worker_round-GoesOn c b s h there =
    if-GoesOn s.is_worker_run _ _ (λ on. handle-GoesOn c b c.overlapped s h there) (stay-GoesOn s h)

pub round-GoesOn : (r : Round) (s : StressServer) → IsSteady s → IsPossible r s → GoesOn (round r s)
unfolding round
round-GoesOn (connects junk sends a) s h possible = connecter_round-GoesOn junk sends a s h
round-GoesOn (talks junk sends cast_type sender) s h possible =
    sender_round-GoesOn junk sends cast_type sender s h possible
round-GoesOn (completes c b) s h possible = worker_round-GoesOn c b s h possible
