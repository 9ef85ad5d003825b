-- ===== src/Workers/Stop.antt =====
-- What `DestroyThreads` of the two IOCPServer.cpp waits for: the joins return when all workers have
-- ended.
use tcp_socket_chatting_serv.Base.{
  ℕ, zero, suc, ◌+◌, ◌*◌, ◌≤◌, ◌<◌, ◌≡◌, refl, subst, ◌∙◌, Bool-cases, ◌⊎◌, inl, inr, true, false,
  List, [], ◌∷◌, some, length, length-append, length-fill, fill, arith,
}
use tcp_socket_chatting_serv.Workers.{
  Pool, Status, posted, io_done, size, Move, test, take_one, test_flag, take_status, move, Run,
  stop_workers, stop_workers_1_0,
}
use tcp_socket_chatting_serv.Workers.Start.{
  Answers, Outcome, returns, exits, no_workers, create_threads, max_worker_thread,
  max_worker_thread_1_0, start_server, serving, run_main, start, start_1_0,
}
use tcp_socket_chatting_serv.Workers.Moves.{Run-size, tests, takes, completions, Run-Accounts}

-- A worker can go on.
abbrev pub GoesOn : Pool → Type 0
GoesOn p = (q : Pool) × ((move test p ≡ some q) ⊎ (move take_one p ≡ some q))

test-GoesOn : (p : Pool) (n : ℕ) → p.testing ≡ suc n → (q : Pool) × (move test p ≡ some q)
unfolding move test_flag
test-GoesOn p n e = rw e (_, refl)

take-GoesOn :
    (p : Pool) (n : ℕ) (e : Status) (rest : List Status)
    → p.waiting ≡ suc n
    → p.port ≡ e ∷ rest
    → (q : Pool) × (move take_one p ≡ some q)
unfolding move take_status
take-GoesOn p n posted rest at has = rw (at, has) (_, refl)
take-GoesOn p n io_done rest at has = rw (at, has) (_, refl)

-- As long as the port has a completion for each worker that waits, a worker can go on, or none is left.
GoesOn-ended :
    (p : Pool) (t n : ℕ) (port : List Status)
    → p.testing ≡ t
    → p.waiting ≡ n
    → p.port ≡ port
    → n ≤ length port
    → GoesOn p ⊎ (p.ended ≡ size p)
unfolding size
GoesOn-ended p (suc t) n port tests_ waits has enough =
    let (q, e) = test-GoesOn p t tests_ in inl (q, inl e)
GoesOn-ended p zero zero port tests_ waits has enough = inr (omega arith)
GoesOn-ended p zero (suc n) [] tests_ waits has enough = absurd (omega arith)
GoesOn-ended p zero (suc n) (e ∷ rest) tests_ waits has enough =
    let (q, e) = take-GoesOn p n e rest waits has in inl (q, inr e)

-- Where the port exists, the posts of version 1.1 are enough for every worker.
stop_workers-ends :
    (p p' : Pool) (ms : List Move)
    → Run ms (stop_workers true p) p'
    → (tests ms + takes ms ≤ 2 * size p)
      × (((q : Pool) × ((move test p' ≡ some q) ⊎ (move take_one p' ≡ some q)))
          ⊎ (p'.ended ≡ size p))
unfolding stop_workers size
stop_workers-ends p p' ms run =
    let a = Run-Accounts ms (stop_workers true p) p' refl run in
    let posts = length-append p.port (fill (size p) posted) in
    let n = length-fill (size p) posted in
    (
      omega (arith, a.waiting, a.testing),
      elim (GoesOn-ended p' p'.testing p'.waiting p'.port refl refl refl
          (omega (arith, posts, n, a.waiting, a.port))) [
            | inl on ↦ inl on
            | inr all ↦ inr (omega (arith, all, a.waiting, a.testing, a.ended))
          ],
    )

-- Version 1.0 posts nothing: a worker that no completion is left for waits on.
stop_workers_1_0-waits :
    (p p' : Pool) (ms : List Move)
    → Run ms (stop_workers_1_0 p) p'
    → length p.port + completions ms < p.waiting
    → (0 < p'.waiting) × (p'.ended < size p)
unfolding stop_workers_1_0 size
stop_workers_1_0-waits p p' ms run few =
    let a = Run-Accounts ms (stop_workers_1_0 p) p' refl run in
    (omega (arith, a.waiting, a.port), omega (arith, a.waiting, a.port, a.testing, a.ended))

serving-size :
    (a : Answers) (o : Outcome) (count : ℕ) (p : Pool)
    → run_main o (start_server a count) ≡ serving p
    → (a.port_ok ≡ true) × (size p ≡ count)
unfolding run_main start_server create_threads no_workers size
serving-size a (exits code) count p e = cc
serving-size a (returns false) count p e = cc
serving-size a (returns true) count p e = elim (Bool-cases a.port_ok) [
  | inl has ↦
      let is : create_threads count no_workers ≡ p = ground (arith, has) in
      (has, rw (← is) (omega arith))
  | inr none_ ↦ cc
]

-- Where the server of version 1.1 serves, and has made any moves since: once the flag is off and
-- the empty completions are posted, the workers make 20 moves at most, whatever completes
-- meanwhile, and as long as not all ten workers have ended, so that the joins return, one of them
-- can go on.
pub shutdown_ends :
    (a : Answers) (p q q' : Pool) (ms ns : List Move)
    → start a ≡ serving p
    → Run ms p q
    → Run ns (stop_workers a.port_ok q) q'
    → (tests ns + takes ns ≤ 2 * max_worker_thread)
      × (((r : Pool) × ((move test q' ≡ some r) ⊎ (move take_one q' ≡ some r)))
          ⊎ (q'.ended ≡ max_worker_thread))
unfolding start
shutdown_ends a p q q' ms ns e run stopped =
    let (has, all) = serving-size a _ max_worker_thread p e in
    let kept : size q ≡ 10 = Run-size ms p q run ∙ all in
    let stopped' = subst (λ b. Run ns (stop_workers b q) q') has stopped in
    let (bound, on) = stop_workers-ends q q' ns stopped' in
    (omega (arith, kept, bound), elim on [ inl more ↦ inl more | inr ended ↦ inr (ended ∙ kept) ])

-- Where the server of version 1.0 serves, and has made any moves since: after its flag is off, as
-- long as there were and come fewer completions than workers were waiting, a worker waits and not
-- all 14 have ended, so that the joins do not return.
pub shutdown_1_0-waits :
    (a : Answers) (p q q' : Pool) (ms ns : List Move)
    → start_1_0 a ≡ serving p
    → Run ms p q
    → Run ns (stop_workers_1_0 q) q'
    → length q.port + completions ns < q.waiting
    → (0 < q'.waiting) × (q'.ended < max_worker_thread_1_0)
unfolding start_1_0
shutdown_1_0-waits a p q q' ms ns e run stopped few =
    let (has, all) = serving-size a _ max_worker_thread_1_0 p e in
    let kept = Run-size ms p q run in
    let (some_wait, not_all) = stop_workers_1_0-waits q q' ns stopped few in
    (some_wait, omega (arith, kept, all, not_all))
