-- ===== src/Stress/Steady.antt =====
-- What the rounds of ChattingServer_v1.0/StressServer/StressServer.cpp keep true of the generator.
use tcp_socket_chatting_serv.Base.{
  ℕ, zero, suc, ◌+◌, ◌%◌, ◌≤◌, ◌<◌, ◌≡◌, refl, sym, ap, subst, ◌∙◌, inl, inr, Bool, true, false,
  ◌&&◌, List, [], ◌∷◌, ◌++◌, some, All, length, le→leb, get_elem?, Bool-cases, arith, ok,
}
use tcp_socket_chatting_serv.Legacy.Packets.{until_nul}
use tcp_socket_chatting_serv.Legacy.Names.{length-until_nul}
use tcp_socket_chatting_serv.Legacy.Slots.{set_at}
use tcp_socket_chatting_serv.Stress.Clients.{
  StressClient, close, has_socket, bind_recv, Answers, create, send_msg, server_enter_sent,
  room_enter_sent, init_packet, StressServer, is_connected,
}
use tcp_socket_chatting_serv.Stress.Threads.{max_client}

-- Each client has its place as its index, from `n` on.
unfoldable pub Numbered : ℕ → List StressClient → Type 0
Numbered n [] = Unit {0}
Numbered n (c ∷ clients) = (c.index ≡ n) × Numbered (suc n) clients

-- As many clients as are counted, in their places, and 10000 at most; there are names and texts, which
-- fit in the packets; the next text is one of them.
pub record IsSteady (s : StressServer) : Type 0 where
  pub counted : s.client_count ≡ length s.clients
  pub most : s.client_count ≤ max_client
  pub numbered : Numbered 0 s.clients
  pub names : All (λ (n : List ℕ). length n < 32) s.nicknames
  pub some_name : 0 < length s.nicknames
  pub texts : All (λ (t : List ℕ). length t < 900) s.contents
  pub next : s.content_index < length s.contents

pub get_elem?-found {ℓ} :
    {A : Type ℓ} (xs : List A) (i : ℕ) → i < length xs → (a : A) × (get_elem? xs i ≡ some a)
get_elem?-found [] i h = absurd (omega arith)
get_elem?-found (x ∷ xs) zero h = (x, refl)
get_elem?-found (x ∷ xs) (suc i) h = get_elem?-found xs i (omega arith)

pub All-get_elem? {ℓ κ} :
    {A : Type ℓ} (P : A → Type κ) (xs : List A) (i : ℕ) (a : A)
    → All P xs
    → get_elem? xs i ≡ some a
    → P a
All-get_elem? P [] i a h e = cc
All-get_elem? P (x ∷ xs) zero a (this, h) e = subst P (ground arith) this
All-get_elem? P (x ∷ xs) (suc i) a (this, h) e = All-get_elem? P xs i a h e

pub Numbered-append :
    (n : ℕ) (clients : List StressClient) (c : StressClient)
    → Numbered n clients
    → c.index ≡ n + length clients
    → Numbered n (clients ++ c ∷ [])
unfolding Numbered
Numbered-append n [] c h e = (omega (arith, e), tt)
Numbered-append n (d ∷ clients) c (this, h) e =
    (this, Numbered-append (suc n) clients c h (omega (arith, e)))

pub Numbered-set_at :
    (n i : ℕ) (clients : List StressClient) (c d : StressClient)
    → Numbered n clients
    → get_elem? clients i ≡ some c
    → d.index ≡ c.index
    → Numbered n (set_at i d clients)
unfolding Numbered set_at
Numbered-set_at n i [] c d h at e = tt
Numbered-set_at n zero (b ∷ clients) c d (this, h) at e =
    let same : b ≡ c = ground arith in (e ∙ sym (ap (λ (x : StressClient). x.index) same) ∙ this, h)
Numbered-set_at n (suc i) (b ∷ clients) c d (this, h) at e =
    (this, Numbered-set_at (suc n) i clients c d h at e)

pub send_msg-index :
    (sends : ℕ → Bool) (bytes : List ℕ) (c : StressClient)
    → (send_msg sends bytes c).index ≡ c.index
unfolding send_msg close
send_msg-index sends bytes c = elim (Bool-cases (is_connected c && sends (length c.sent))) [
  | inl taken ↦ rw taken refl
  | inr lost ↦ rw lost refl
]

pub bind_recv-index : (b : Bool) (c : StressClient) → (bind_recv b c).0.index ≡ c.index
unfolding bind_recv close
bind_recv-index true c = refl
bind_recv-index false c = refl

pub create-index : (a : Answers) (c : StressClient) → (create a c).index ≡ c.index
unfolding create
create-index a c = elim (Bool-cases (has_socket a.new_socket && a.connect_ok && a.bind_ok)) [
  | inl up ↦ rw up (bind_recv-index a.recv_ok (record c { socket = a.new_socket }))
  | inr down ↦ rw down refl
]

pub init_packet-index :
    (junk : List ℕ) (sends : ℕ → Bool) (name : List ℕ) (c : StressClient)
    → length name < 32
    → (c' : StressClient) × (init_packet junk sends name c ≡ ok c') × (c'.index ≡ c.index)
unfolding init_packet
init_packet-index junk sends name c short =
    let text : List ℕ = until_nul name in
    let enter : List ℕ = server_enter_sent junk text in
    let started : StressClient = record c { nickname = name } in
    rw (le→leb (length text + 1) 32 (omega (arith, length-until_nul name))) (
      _,
      refl,
      send_msg-index sends (room_enter_sent junk text (c.index % 5 + 1))
            (send_msg sends enter started)
          ∙ send_msg-index sends enter started,
    )
