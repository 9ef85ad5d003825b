-- ===== src/Server/Invariant/Rounds.antt =====
-- The invariant through a round of each thread that returns.
use tcp_socket_chatting_serv.Base.{
  ℕ, ◌≡◌, refl, sym, ap, subst, ◌∙◌, Bool, true, false, inl, inr, List, [], ◌∷◌, Option, none, some,
  Bool-cases, Result, ok, >>=-eq_ok, ok_injective, if◌then◌else◌, ◌&&◌, ◌==◌,
}
use tcp_socket_chatting_serv.Packet.Types.{Packet, pk_c_room_enter}
use tcp_socket_chatting_serv.IoData.{send_packet, on_recv}
use tcp_socket_chatting_serv.Server.World.{
  World, User, Session, RecvPackage, SendPackage, deref, close,
}
use tcp_socket_chatting_serv.Server.Users.{bind_recv, remove_found, remove_user_id, get_user}
use tcp_socket_chatting_serv.Server.Logic.{process}
use tcp_socket_chatting_serv.Server.Threads.{
  push_job, process_package, process_job, run_process, send_to, send_job, run_send, Completion,
  IoOperation, io_recv, io_send, io_error, received, completed, dropped, handle, run_worker,
}
use tcp_socket_chatting_serv.Server.Invariant.{IsSound}
use tcp_socket_chatting_serv.Server.Invariant.Protocol.{
  Conforms, Succeeds, process-Succeeds, remove_user-Succeeds,
}
use tcp_socket_chatting_serv.Containers.Laws.{All-lookup}

-- If a call succeeds, the world that it returns is the one of which that is known.
returned : (r : Result World) (w' : World) → r ≡ ok w' → Succeeds r → IsSound w'
returned r w' e (v, e', sound) = subst IsSound (ok_injective v w' (sym e' ∙ e)) sound

Conforms-queue :
    (w : World) (u : User) (packet : Packet) (rest : List RecvPackage)
    → Conforms w u packet
    → Conforms (record w { job_queue = rest }) u packet
Conforms-queue w u (pk_c_room_enter rid) rest c = c
Conforms-queue w u packet rest c = c

pub process-step :
    (w w' : World) (s : ℕ) (u : User) (packet : Packet) (rest : List RecvPackage)
    → w.job_queue ≡ record { session = some s; packet = some packet } ∷ rest
    → w.heap s ≡ some u
    → Conforms w u packet
    → IsSound w
    → run_process w ≡ ok w'
    → IsSound w'
unfolding run_process process_job process_package
process-step w w' s u packet rest queue there c sound e = elim (Bool-cases w.process_run) [
  | inl running ↦
      returned (process (record w { job_queue = rest }) s packet) w'
        (sym (branch running ∙ ap (process_job w) queue) ∙ e)
        (process-Succeeds (record w { job_queue = rest }) s u there sound packet
          (Conforms-queue w u packet rest c))
  | inr stopped ↦ subst IsSound (ok_injective w w' (sym (branch stopped) ∙ e)) sound
]
  where
    branch :
        {b : Bool}
        → w.process_run ≡ b
        → run_process w ≡ (if b then process_job w w.job_queue else ok w)
    branch h = ap (λ (b : Bool). if b then process_job w w.job_queue else ok w) h

send_to-IsSound :
    (w w' : World) (session : Option ℕ) (packet : Option Packet)
    → IsSound w
    → send_to w session packet ≡ ok w'
    → IsSound w'
unfolding send_to
send_to-IsSound w w' (some s) (some packet) sound e =
    let (u, _, e₁) = >>=-eq_ok (deref w s) _ e in
    let (bytes, _, e₂) = >>=-eq_ok (send_packet packet) _ e₁ in
    subst IsSound (ok_injective _ w' e₂) sound
send_to-IsSound w w' session packet sound e = subst IsSound (ok_injective w w' e) sound

send_job-IsSound :
    (w w' : World) (pkgs : List SendPackage) → IsSound w → send_job w pkgs ≡ ok w' → IsSound w'
unfolding send_job
send_job-IsSound w w' [] sound e = subst IsSound (ok_injective w w' e) sound
send_job-IsSound w w' (pkg ∷ rest) sound e =
    send_to-IsSound (record w { packages = rest }) w' pkg.session pkg.packet sound e

pub send-step : (w w' : World) → IsSound w → run_send w ≡ ok w' → IsSound w'
unfolding run_send
send-step w w' sound e = elim (Bool-cases w.send_run) [
  | inl running ↦ send_job-IsSound w w' w.packages sound (sym (branch running) ∙ e)
  | inr stopped ↦ subst IsSound (ok_injective w w' (sym (branch stopped) ∙ e)) sound
]
  where
    branch : {b : Bool} → w.send_run ≡ b → run_send w ≡ (if b then send_job w w.packages else ok w)
    branch h = ap (λ (b : Bool). if b then send_job w w.packages else ok w) h

bind_recv-IsSound :
    (w : World) (session : Session) (recv_ok : Bool)
    → IsSound w
    → IsSound (bind_recv w session recv_ok).0
unfolding bind_recv close
bind_recv-IsSound w session true sound = sound
bind_recv-IsSound w session false sound = sound

push_job-IsSound : (w : World) (pkg : RecvPackage) → IsSound w → IsSound (push_job w pkg)
unfolding push_job
push_job-IsSound w pkg sound = sound

received-IsSound :
    (junk : ℕ) (w w' : World) (c : Completion) (recv_ok : Bool)
    → IsSound w
    → received junk w c recv_ok ≡ ok w'
    → IsSound w'
unfolding received
received-IsSound junk w w' c recv_ok sound e =
    let (u, _, e₁) = >>=-eq_ok (deref w c.session) _ e in
    let (packet, _, e₂) = >>=-eq_ok (on_recv junk c.buffer c.io_size) _ e₁ in
    subst IsSound (ok_injective _ w' e₂)
      (bind_recv-IsSound _ u.session recv_ok (push_job-IsSound w _ sound))

remove_found-IsSound :
    (w w' : World) (uid : ℕ) (found : Option ℕ)
    → get_user w uid ≡ found
    → IsSound w
    → remove_found w found ≡ ok w'
    → IsSound w'
unfolding remove_found get_user
remove_found-IsSound w w' uid none f sound e = subst IsSound (ok_injective w w' e) sound
remove_found-IsSound w w' uid (some p) f sound e =
    let (u, there, _) =
      All-lookup (λ i q. (v : User) × (w.heap q ≡ some v) × (v.user_id ≡ i)) uid p w.user_list
        sound.registered f in
    returned _ w' e (remove_user-Succeeds w p u there sound)

dropped-IsSound : (w w' : World) (c : Completion) → IsSound w → dropped w c ≡ ok w' → IsSound w'
unfolding dropped remove_user_id
dropped-IsSound w w' c sound e =
    let (u, _, e₁) = >>=-eq_ok (deref w c.session) _ e in
    remove_found-IsSound w w' u.session.user_id (get_user w u.session.user_id) refl sound e₁

completed-IsSound :
    (junk : ℕ) (w w' : World) (c : Completion) (recv_ok : Bool) (op : IoOperation)
    → IsSound w
    → completed junk w c recv_ok op ≡ ok w'
    → IsSound w'
unfolding completed
completed-IsSound junk w w' c recv_ok io_recv sound e = received-IsSound junk w w' c recv_ok sound e
completed-IsSound junk w w' c recv_ok io_send sound e = subst IsSound (ok_injective w w' e) sound
completed-IsSound junk w w' c recv_ok io_error sound e = subst IsSound (ok_injective w w' e) sound

-- One of two results, by a test.
if-IsSound :
    (b : Bool) (r q : Result World) (w' : World)
    → (r ≡ ok w' → IsSound w')
    → (q ≡ ok w' → IsSound w')
    → (if b then r else q) ≡ ok w'
    → IsSound w'
if-IsSound true r q w' hr hq e = hr e
if-IsSound false r q w' hr hq e = hq e

handle-IsSound :
    (junk : ℕ) (w w' : World) (c : Completion) (recv_ok : Bool) (op : Option IoOperation)
    → IsSound w
    → handle junk w c recv_ok op ≡ ok w'
    → IsSound w'
unfolding handle
handle-IsSound junk w w' c recv_ok none sound e =
    subst IsSound (ok_injective _ w' e) (stopped (c.success && c.io_size == 0))
  where
    stopped : (b : Bool) → IsSound (if b then record w { worker_run = false } else w)
    stopped true = sound
    stopped false = sound
handle-IsSound junk w w' c recv_ok (some op) sound e =
    if-IsSound _ (dropped w c) (completed junk w c recv_ok op) w' (dropped-IsSound w w' c sound)
      (completed-IsSound junk w w' c recv_ok op sound) e

pub worker-step :
    (junk : ℕ) (w w' : World) (c : Completion) (recv_ok : Bool)
    → IsSound w
    → run_worker junk w c recv_ok ≡ ok w'
    → IsSound w'
unfolding run_worker
worker-step junk w w' c recv_ok sound e =
    if-IsSound w.worker_run (handle junk w c recv_ok c.overlapped) (ok w) w'
      (handle-IsSound junk w w' c recv_ok c.overlapped sound)
      (λ h. subst IsSound (ok_injective w w' h) sound) e
