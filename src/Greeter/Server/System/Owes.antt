-- ===== src/Greeter/Server/System/Owes.antt =====
-- The completions that one session of GreeterServer waits for (grpcdemo/server_async.cc).
use cpp_demo.Prelude.{
  ℕ, ◌+◌, ◌^◌, ◌<◌, ◌≤◌, ◌≡◌, refl, sym, map, Option, none, some, true, false, arith, ◌==◌,
}
use mathlib.Core.Path.{transport}
use cpp_demo.Greeter.Tag.{
  SessionEvent, connected, read_done, write_done, finished, tagify, detagify_small,
}
use cpp_demo.Greeter.Session.{
  Session, SessionStatus, wait_to_connect, wait_write_done, process_event, send_response,
}
use cpp_demo.Greeter.Server.{Server, on_stream, find, assign, is_read_or_write}
use cpp_demo.Greeter.Server.Sessions.{Keyed, find-assign, find_id}
use cpp_demo.Greeter.Server.System.Counts.{is_for, stream_count}

abbrev pub waiting : SessionStatus → ℕ
waiting wait_to_connect = 1
waiting _ = 0

abbrev pub writing : SessionStatus → ℕ
writing wait_write_done = 1
writing _ = 0

-- What is to complete for a session: its connection, or else one read, and a write while it writes.
abbrev pub Owes : Option Session → ℕ → ℕ → ℕ → Type 0
Owes none c r w = Unit {0}
Owes (some s) c r w = (c ≡ waiting s.status) × (r + waiting s.status ≡ 1) × (w ≡ writing s.status)

-- One session's share, behind a completed Read or Write that was still to come.
module _ (s : Session) (k : ℕ) (id : s.session_id ≡ k) (small : k < 2 ^ 62) (c r w : ℕ) where
  read-Owes :
      Owes (some s) c (r + 1) w
      → let (t, calls) = process_event s read_done in
        Owes
          (some t)
          c
          (r + stream_count k read_done (map (on_stream k) calls))
          (w + stream_count k write_done (map (on_stream k) calls))
  unfolding process_event send_response
  read-Owes o = ground (arith, detagify_small k read_done small, detagify_small k write_done small)

  write-Owes :
      Owes (some s) c r (w + 1)
      → let (t, calls) = process_event s write_done in
        Owes
          (some t)
          c
          (r + stream_count k read_done (map (on_stream k) calls))
          (w + stream_count k write_done (map (on_stream k) calls))
  unfolding process_event
  write-Owes o = ground (arith, detagify_small k read_done small, detagify_small k write_done small)

  -- No other session has a share in its calls.
  pub process_event-others :
      (e : SessionEvent) (i : ℕ)
      → (k == i) ≡ false
      → let (t, calls) = process_event s e in
        (stream_count i read_done (map (on_stream k) calls) ≡ 0)
        × (stream_count i write_done (map (on_stream k) calls) ≡ 0)
  unfolding process_event send_response
  process_event-others e i h =
      ground (arith, detagify_small k read_done small, detagify_small k write_done small)

pub Owes-cong :
    {o p : Option Session} {c c' r r' w w' : ℕ}
    → o ≡ p
    → c ≡ c'
    → r ≡ r'
    → w ≡ w'
    → Owes p c' r' w'
    → Owes o c r w
Owes-cong a b d e h = transport (λ k. Owes (sym a k) (sym b k) (sym d k) (sym e k)) h

module _ (sv : Server) (keyed : Keyed sv.session_id_allocator sv.sessions)
    (small : sv.session_id_allocator ≤ 2 ^ 62) (k : ℕ) (s : Session)
    (found : find k sv.sessions ≡ some s) (i c r w : ℕ) where
  pub progress-there :
      (e : SessionEvent)
      → (k == i) ≡ false
      → let (t, calls) = process_event s e in
        Owes
          (find i sv.sessions)
          c
          (r + is_for i read_done (tagify k e))
          (w + is_for i write_done (tagify k e))
        → Owes
            (find i (assign k t sv.sessions))
            c
            (r + stream_count i read_done (map (on_stream k) calls))
            (w + stream_count i write_done (map (on_stream k) calls))
  progress-there e there o =
      let (id, low) = find_id sv.session_id_allocator k sv.sessions s keyed found in
      let quiet = process_event-others s k id (omega arith) 0 0 0 e i there in
      let other = detagify_small k e (omega arith) in
      Owes-cong (ground (arith, find-assign k i (process_event s e).0 sv.sessions)) refl
        (ground (arith, quiet, other)) (ground (arith, quiet, other)) o

  pub progress-here :
      (e : SessionEvent)
      → is_read_or_write e ≡ true
      → k ≡ i
      → let (t, calls) = process_event s e in
        Owes
          (find i sv.sessions)
          c
          (r + is_for i read_done (tagify k e))
          (w + is_for i write_done (tagify k e))
        → Owes
            (find i (assign k t sv.sessions))
            c
            (r + stream_count i read_done (map (on_stream k) calls))
            (w + stream_count i write_done (map (on_stream k) calls))
  progress-here read_done h here o =
      let (id, low) = find_id sv.session_id_allocator k sv.sessions s keyed found in
      let mine = detagify_small k read_done (omega arith) in
      let before : Owes (some s) c (r + 1) w =
        Owes-cong {o = some s} {p = find i sv.sessions} {c = c} {c' = c} {r = r + 1}
          {r' = r + is_for i read_done (tagify k read_done)} {w = w}
          {w' = w + is_for i write_done (tagify k read_done)} (ground arith) refl
          (ground (arith, mine)) (ground (arith, mine)) o in
      let after = read-Owes s k id (omega arith) c r w before in
      Owes-cong {p = some (process_event s read_done).0}
        {r' = r + stream_count k read_done (map (on_stream k) (process_event s read_done).1)}
        {w' = w + stream_count k write_done (map (on_stream k) (process_event s read_done).1)}
        (ground (arith, find-assign k i (process_event s read_done).0 sv.sessions)) refl
        (ground arith) (ground arith) after
  progress-here write_done h here o =
      let (id, low) = find_id sv.session_id_allocator k sv.sessions s keyed found in
      let mine = detagify_small k write_done (omega arith) in
      let before : Owes (some s) c r (w + 1) =
        Owes-cong {o = some s} {p = find i sv.sessions} {c = c} {c' = c} {r = r}
          {r' = r + is_for i read_done (tagify k write_done)} {w = w + 1}
          {w' = w + is_for i write_done (tagify k write_done)} (ground arith) refl
          (ground (arith, mine)) (ground (arith, mine)) o in
      let after = write-Owes s k id (omega arith) c r w before in
      Owes-cong {p = some (process_event s write_done).0}
        {r' = r + stream_count k read_done (map (on_stream k) (process_event s write_done).1)}
        {w' = w + stream_count k write_done (map (on_stream k) (process_event s write_done).1)}
        (ground (arith, find-assign k i (process_event s write_done).0 sv.sessions)) refl
        (ground arith) (ground arith) after
  progress-here connected h here o = cc
  progress-here finished h here o = cc
