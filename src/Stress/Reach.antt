-- ===== src/Stress/Reach.antt =====
-- The load generator, ChattingServer_v1.0/StressServer, from its constructor on: the two files that
-- CsvParser.cpp reads, and the rounds of StressServer.cpp.
use tcp_socket_chatting_serv.Base.{
  ℕ, ◌<◌, ◌≡◌, refl, sym, ap, subst, ◌∙◌, List, [], append-nil, map, some, All, length, arith, ok,
  ok_injective,
}
use tcp_socket_chatting_serv.Stress.Csv.{read_csv, parse_csv}
use tcp_socket_chatting_serv.Stress.Csv.Lines.{Ending, text_of, IsLine, read_csv-text_of}
use tcp_socket_chatting_serv.Stress.Clients.{StressServer}
use tcp_socket_chatting_serv.Stress.Threads.{new_stress}
use tcp_socket_chatting_serv.Stress.Steady.{IsSteady, Numbered}
use tcp_socket_chatting_serv.Stress.Rounds.{Round, round, IsPossible, round-GoesOn}

-- Rounds in a row from `s`.
pub data Reach (s : StressServer) : StressServer → Type 0 where
  start : Reach s s
  after :
      {s' s'' : StressServer} (r : Round)
      → Reach s s'
      → IsPossible r s'
      → round r s' ≡ ok s''
      → Reach s s''

Reach-IsSteady : (s s' : StressServer) → IsSteady s → Reach s s' → IsSteady s'
Reach-IsSteady s s' h start = h
Reach-IsSteady s s' h (after {s' = t} r before possible e) =
    let (t', e', steady) = round-GoesOn r t (Reach-IsSteady s t h before) possible in
    subst IsSteady (ok_injective t' s' (sym e' ∙ e)) steady

-- The texts of the lines of a file.
abbrev pub texts_of : List (List ℕ × Ending) → List (List ℕ)
texts_of lines = map (λ l. l.0) lines

read_csv-whole :
    (lines : List (List ℕ × Ending)) → All IsLine lines → read_csv (text_of lines) ≡ texts_of lines
read_csv-whole lines good =
    ap read_csv (sym (append-nil (text_of lines))) ∙ read_csv-text_of lines [] good tt

module _ (names contents : List (List ℕ × Ending)) (good_names : All IsLine names)
    (good_contents : All IsLine contents) (some_name : 0 < length (texts_of names))
    (some_text : 0 < length (texts_of contents))
    (short_names : All (λ (n : List ℕ). length n < 32) (texts_of names))
    (short_texts : All (λ (t : List ℕ). length t < 900) (texts_of contents)) where
  begins : StressServer
  begins = new_stress (some (text_of names)) (some (text_of contents))

  begins-IsSteady : IsSteady begins
  unfolding begins new_stress parse_csv Numbered
  begins-IsSteady = record {
    counted = refl;
    most = omega arith;
    numbered = tt;
    names = rw (read_csv-whole names good_names) short_names;
    some_name = rw (read_csv-whole names good_names) some_name;
    texts = rw (read_csv-whole contents good_contents) short_texts;
    next = rw (read_csv-whole contents good_contents) some_text;
  }

  -- In the load generator of version 1.0, from files of lines that are not empty, at least one in
  -- each, with names below 32 bytes and texts below 900: after any rounds of its threads, none
  -- faults, as long as a sender, once there are clients, and a completion's client are below their
  -- number, and the clients are as many as are counted, in the places that are their indexes, and
  -- 10000 at most.
  pub reachable-GoesOn :
      (s : StressServer) (r : Round)
      → Reach (new_stress (some (text_of names)) (some (text_of contents))) s
      → IsPossible r s
      → (s' : StressServer) × (round r s ≡ ok s') × IsSteady s'
  unfolding begins
  reachable-GoesOn s r before possible =
      round-GoesOn r s (Reach-IsSteady begins s begins-IsSteady before) possible
