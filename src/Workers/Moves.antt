-- ===== src/Workers/Moves.antt =====
-- The accounts of the workers' moves once the flag of ChatServer.cpp's `WorkerThread` is off.
use tcp_socket_chatting_serv.Base.{
  ℕ, zero, suc, ◌+◌, ◌≡◌, refl, ap, ◌∙◌, inl, inr, false, List, [], ◌∷◌, ◌++◌, some, length,
  length-append, arith, Bool-cases,
}
use tcp_socket_chatting_serv.Workers.{
  Pool, Status, posted, io_done, size, Move, test, take_one, complete, test_flag, take_status, move,
  Run, here, next,
}

-- How many of the moves are of a kind.
unfoldable pub tests : List Move → ℕ
tests [] = 0
tests (test ∷ ms) = suc (tests ms)
tests (take_one ∷ ms) = tests ms
tests (complete ∷ ms) = tests ms

unfoldable pub takes : List Move → ℕ
takes [] = 0
takes (test ∷ ms) = takes ms
takes (take_one ∷ ms) = suc (takes ms)
takes (complete ∷ ms) = takes ms

unfoldable pub completions : List Move → ℕ
completions [] = 0
completions (test ∷ ms) = completions ms
completions (take_one ∷ ms) = completions ms
completions (complete ∷ ms) = suc (completions ms)

-- With the flag off, the moves shift workers from the wait to the test and to the end.
pub record Accounts (ms : List Move) (p p' : Pool) : Type 0 where
  pub off : p'.is_run ≡ false
  pub waiting : p'.waiting + takes ms ≡ p.waiting
  pub testing : p'.testing + tests ms ≡ p.testing + takes ms
  pub ended : p'.ended ≡ p.ended + tests ms
  pub port : length p'.port + takes ms ≡ length p.port + completions ms

testing-Accounts :
    (p p' : Pool) (n : ℕ)
    → p.is_run ≡ false
    → p.testing ≡ n
    → test_flag p n ≡ some p'
    → Accounts (test ∷ []) p p'
unfolding test_flag tests takes completions
testing-Accounts p p' zero off at e = cc
testing-Accounts p p' (suc n) off at e =
    let is : record p { testing = n; ended = p.ended + 1 } ≡ p' = ground (arith, off) in
    rw (← is) (record {
      off = off;
      waiting = omega arith;
      testing = omega arith;
      ended = refl;
      port = refl;
    })

-- A worker that waits takes the front of the port.
taken : (p : Pool) (n : ℕ) (rest : List Status) → Pool
taken p n rest = record p { is_run = false; port = rest; waiting = n; testing = p.testing + 1 }

taken-Accounts :
    (p : Pool) (n : ℕ) (e : Status) (rest : List Status)
    → p.waiting ≡ suc n
    → p.port ≡ e ∷ rest
    → Accounts (take_one ∷ []) p (taken p n rest)
unfolding tests takes completions taken
taken-Accounts p n e rest at has = record {
  off = refl;
  waiting = omega arith;
  testing = omega arith;
  ended = omega arith;
  port = omega (arith, ap length has);
}

taking-Accounts :
    (p p' : Pool) (n : ℕ) (port : List Status)
    → p.is_run ≡ false
    → p.waiting ≡ n
    → p.port ≡ port
    → take_status p n port ≡ some p'
    → Accounts (take_one ∷ []) p p'
unfolding take_status taken
taking-Accounts p p' zero port off at has e = cc
taking-Accounts p p' (suc n) [] off at has e = cc
taking-Accounts p p' (suc n) (posted ∷ rest) off at has e =
    let is : taken p n rest ≡ p' = ground arith in rw (← is) (taken-Accounts p n posted rest at has)
taking-Accounts p p' (suc n) (io_done ∷ rest) off at has e =
    let is : taken p n rest ≡ p' = ground (arith, off) in
    rw (← is) (taken-Accounts p n io_done rest at has)

move-Accounts :
    (m : Move) (p p' : Pool) → p.is_run ≡ false → move m p ≡ some p' → Accounts (m ∷ []) p p'
unfolding move tests takes completions
move-Accounts test p p' off e = testing-Accounts p p' p.testing off refl e
move-Accounts take_one p p' off e = taking-Accounts p p' p.waiting p.port off refl refl e
move-Accounts complete p p' off e =
    let is : record p { port = p.port ++ io_done ∷ [] } ≡ p' = ground arith in
    rw (← is) (record {
      off = off;
      waiting = omega arith;
      testing = omega arith;
      ended = omega arith;
      port = omega (arith, length-append p.port (io_done ∷ []));
    })

one-more :
    (m : Move) (ms : List Move)
    → (tests (m ∷ ms) ≡ tests (m ∷ []) + tests ms)
      × (takes (m ∷ ms) ≡ takes (m ∷ []) + takes ms)
      × (completions (m ∷ ms) ≡ completions (m ∷ []) + completions ms)
unfolding tests takes completions
one-more test ms = (omega arith, omega arith, omega arith)
one-more take_one ms = (omega arith, omega arith, omega arith)
one-more complete ms = (omega arith, omega arith, omega arith)

-- The accounts hold of any moves in a row.
pub Run-Accounts :
    (ms : List Move) (p p' : Pool) → p.is_run ≡ false → Run ms p p' → Accounts ms p p'
unfolding tests takes completions
Run-Accounts [] p p' off here = record {
  off = off;
  waiting = omega arith;
  testing = omega arith;
  ended = omega arith;
  port = omega arith;
}
Run-Accounts (m ∷ ms) p p' off (next {p' = q} e r) =
    let first = move-Accounts m p q off e in
    let rest = Run-Accounts ms q p' first.off r in
    let (a, b, c) = one-more m ms in
    record {
      off = rest.off;
      waiting = omega (arith, a, b, c, first.waiting, rest.waiting);
      testing = omega (arith, a, b, c, first.testing, rest.testing);
      ended = omega (arith, a, b, c, first.ended, rest.ended);
      port = omega (arith, a, b, c, first.port, rest.port);
    }

test-size : (p p' : Pool) (n : ℕ) → p.testing ≡ n → test_flag p n ≡ some p' → size p' ≡ size p
unfolding test_flag size
test-size p p' zero at e = cc
test-size p p' (suc n) at e = elim (Bool-cases p.is_run) [
  | inl on ↦
      let is : record p { testing = n; waiting = p.waiting + 1 } ≡ p' = ground (arith, on) in
      rw (← is) (omega arith)
  | inr off ↦
      let is : record p { testing = n; ended = p.ended + 1 } ≡ p' = ground (arith, off) in
      rw (← is) (omega arith)
]

take-size :
    (p p' : Pool) (n : ℕ) (port : List Status)
    → p.waiting ≡ n
    → take_status p n port ≡ some p'
    → size p' ≡ size p
unfolding take_status size
take-size p p' zero port at e = cc
take-size p p' (suc n) [] at e = cc
take-size p p' (suc n) (posted ∷ rest) at e =
    let is : taken p n rest ≡ p' = unfold taken in ground arith in
    rw (← is) (unfold taken in omega arith)
take-size p p' (suc n) (io_done ∷ rest) at e =
    let is : record p { port = rest; waiting = n; testing = p.testing + 1 } ≡ p' = ground arith in
    rw (← is) (omega arith)

move-size : (m : Move) (p p' : Pool) → move m p ≡ some p' → size p' ≡ size p
unfolding move
move-size test p p' e = test-size p p' p.testing refl e
move-size take_one p p' e = take-size p p' p.waiting p.port refl e
move-size complete p p' e =
    let is : record p { port = p.port ++ io_done ∷ [] } ≡ p' = ground arith in
    rw (← is) (unfold size in refl)

-- No worker is lost.
pub Run-size : (ms : List Move) (p p' : Pool) → Run ms p p' → size p' ≡ size p
Run-size [] p p' here = refl
Run-size (m ∷ ms) p p' (next {p' = q} e r) = Run-size ms q p' r ∙ move-size m p q e
