-- ===== src/Greeter/Server/System/Operations.antt =====
-- What Start, Stop and a broadcast round of GreeterServer leave to complete (grpcdemo/server_async.cc).
use cpp_demo.Greeter.Server.System.Rounds.{send_all-quiet, send_all-Owes}
use cpp_demo.Greeter.Server.System.Counts.{conn_count, stream_count}
use cpp_demo.Prelude.{
  ℕ, ◌+◌, ◌^◌, ◌<◌, ◌≤◌, ◌≡◌, refl, sym, subst, ◌++◌, inl, inr, List, [], ◌∷◌, true, false, Text,
  arith, Bool-cases,
}
use cpp_demo.Greeter.Tag.{SessionEvent, connected, read_done, write_done}
use cpp_demo.Greeter.Session.{send_response}
use cpp_demo.Greeter.Server.{
  Server, Sessions, Call, shutdown_server, shutdown_cq_conn, shutdown_cq_readwrite, add_new_session,
  send_all, broadcast_message, broadcast_round, cancels, stop, start,
}
use cpp_demo.Greeter.Server.Sessions.{Keyed, Fresh-above}
use cpp_demo.Greeter.Server.System.Pending.{DueAt, add_new_session-Due}
use cpp_demo.Greeter.Server.System.Completions.{DueAt-cong}

send_all-conn :
    (i : ℕ) (e : SessionEvent) (message : Text) (m : Sessions)
    → conn_count i e (send_all message m).1 ≡ 0
unfolding send_all send_response
send_all-conn i e message [] = refl
send_all-conn i e message ((k, s) ∷ m) = ground (arith, send_all-conn i e message m)

cancels_quiet :
    (i : ℕ) (e : SessionEvent) (m : Sessions)
    → let cs = cancels m ++ (shutdown_server ∷ shutdown_cq_conn ∷ shutdown_cq_readwrite ∷ []) in
      (conn_count i e cs ≡ 0) × (stream_count i e cs ≡ 0)
unfolding cancels
cancels_quiet i e [] = (refl, refl)
cancels_quiet i e ((k, s) ∷ m) = ground (arith, cancels_quiet i e m)

-- What an operation leaves, with its calls.
abbrev pub Shared : Server × List Call → ℕ → ℕ → ℕ → ℕ → Type 0
Shared p i c r w =
    DueAt p.0 i (c + conn_count i connected p.1) (r + stream_count i read_done p.1)
      (w + stream_count i write_done p.1)

module _ (sv : Server) (i c r w : ℕ) (due : DueAt sv i c r w) where
  idle-Shared : Shared (sv, []) i c r w
  idle-Shared =
      DueAt-cong sv i (c + 0) c (r + 0) r (w + 0) w (omega arith) (omega arith) (omega arith) due

module _ (sv : Server) (i c r w : ℕ) (due : DueAt sv i c r w) where
  pub start-Shared : sv.session_id_allocator < 2 ^ 62 → Shared (start sv) i c r w
  unfolding start add_new_session
  start-Shared h = elim (Bool-cases sv.running) [
    | inl on ↦
        let same_on : start sv ≡ (sv, []) = ground arith in
        subst (λ p. Shared p i c r w) (sym same_on) (idle-Shared sv i c r w due)
    | inr off ↦
        let on : Server = record sv { running = true } in
        let added = add_new_session-Due on i c r w h due in
        let p = add_new_session on in
        let same_off : start sv ≡ p = ground arith in
        subst (λ p. Shared p i c r w) (sym same_off)
          (DueAt-cong p.0 i (c + conn_count i connected p.1) (c + conn_count i connected p.1)
            (r + stream_count i read_done p.1) r (w + stream_count i write_done p.1) w refl
            (omega arith) (omega arith) added)
  ]

  pub stop-Shared : Shared (stop sv) i c r w
  unfolding stop
  stop-Shared = elim (Bool-cases sv.running) [
    | inl on ↦
        let off : Server = record sv { running = false } in
        let cs =
          cancels sv.sessions
          ++ (shutdown_server ∷ shutdown_cq_conn ∷ shutdown_cq_readwrite ∷ []) in
        let same : stop sv ≡ (off, cs) = ground arith in
        subst (λ p. Shared p i c r w) (sym same)
          (DueAt-cong off i (c + conn_count i connected cs) c (r + stream_count i read_done cs) r
            (w + stream_count i write_done cs) w
            (omega (arith, cancels_quiet i connected sv.sessions))
            (omega (arith, cancels_quiet i read_done sv.sessions))
            (omega (arith, cancels_quiet i write_done sv.sessions)) due)
    | inr off ↦
        let same : stop sv ≡ (sv, []) = ground arith in
        subst (λ p. Shared p i c r w) (sym same) (idle-Shared sv i c r w due)
  ]

  pub broadcast_round-Shared :
      Keyed sv.session_id_allocator sv.sessions
      → sv.session_id_allocator ≤ 2 ^ 62
      → Shared (broadcast_round sv) i c r w
  unfolding broadcast_round
  broadcast_round-Shared keyed h = elim (Bool-cases sv.running) [
    | inl on ↦
        let (m, cs) = send_all broadcast_message sv.sessions in
        let after : Server = record sv { sessions = m } in
        let same : broadcast_round sv ≡ (after, cs) = ground arith in
        let owes =
          send_all-Owes i sv.session_id_allocator c r w broadcast_message sv.sessions keyed h
            due.0 in
        let calm = send_all-conn i connected broadcast_message sv.sessions in
        subst (λ p. Shared p i c r w) (sym same)
          (DueAt-cong after i (c + conn_count i connected cs) c (r + stream_count i read_done cs)
            (r + stream_count i read_done cs) (w + stream_count i write_done cs)
            (w + stream_count i write_done cs) (omega (arith, calm)) refl refl
            (
              owes,
              λ above.
                  let z = due.1 above in
                  let fresh = Fresh-above {n = sv.session_id_allocator} sv.sessions i keyed above in
                  let quiet = λ (e : SessionEvent).
                    send_all-quiet i sv.session_id_allocator e broadcast_message sv.sessions keyed h
                      fresh in
                  (z.0, omega (arith, quiet read_done), omega (arith, quiet write_done)),
            ))
    | inr off ↦
        let same : broadcast_round sv ≡ (sv, []) = ground arith in
        subst (λ p. Shared p i c r w) (sym same) (idle-Shared sv i c r w due)
  ]
