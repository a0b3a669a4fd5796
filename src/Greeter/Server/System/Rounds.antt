-- ===== src/Greeter/Server/System/Rounds.antt =====
-- The writes that a broadcast round of GreeterServer adds (grpcdemo/server_async.cc).
use cpp_demo.Greeter.Server.System.Owes.{Owes, Owes-cong}
use cpp_demo.Greeter.Server.System.Counts.{stream_count, stream_count-append}
use cpp_demo.Prelude.{
  ℕ, ◌+◌, ◌^◌, ◌<◌, ◌≤◌, ◌≡◌, refl, ◌++◌, inl, inr, [], ◌∷◌, map, some, false, Text, arith, ◌==◌,
  Bool-cases,
}
use cpp_demo.Greeter.Tag.{SessionEvent, read_done, write_done, detagify_small}
use cpp_demo.Greeter.Session.{Session, send_response}
use cpp_demo.Greeter.Server.{Sessions, on_stream, find, send_all}
use cpp_demo.Greeter.Server.Sessions.{Fresh, Keyed}

-- A broadcast round.
pub send_all-quiet :
    (i n : ℕ) (e : SessionEvent) (message : Text) (m : Sessions)
    → Keyed n m
    → n ≤ 2 ^ 62
    → Fresh i m
    → stream_count i e (send_all message m).1 ≡ 0
unfolding send_all send_response
send_all-quiet i n e message [] keyed h fresh = refl
send_all-quiet i n e message ((k, s) ∷ m) keyed h fresh =
    let tag = detagify_small s.session_id write_done (omega (arith, keyed)) in
    let rest = send_all-quiet i n e message m keyed.3 h fresh.1 in
    ground (arith, tag, rest, keyed.1, fresh.0)

sent-Owes :
    (s : Session) (k c r w : ℕ) (message : Text)
    → s.session_id ≡ k
    → k < 2 ^ 62
    → Owes (some s) c r w
    → let (t, calls) = send_response s message in
      Owes
        (some t)
        c
        (r + stream_count k read_done (map (on_stream k) calls))
        (w + stream_count k write_done (map (on_stream k) calls))
unfolding send_response
sent-Owes s k c r w message id small o = ground (arith, detagify_small k write_done small)

sent_quiet :
    (s : Session) (i k : ℕ) (e : SessionEvent) (message : Text)
    → s.session_id ≡ k
    → k < 2 ^ 62
    → (k == i) ≡ false
    → stream_count i e (map (on_stream k) (send_response s message).1) ≡ 0
unfolding send_response
sent_quiet s i k e message id small other = ground (arith, detagify_small k write_done small)

pub send_all-Owes :
    (i n c r w : ℕ) (message : Text) (m : Sessions)
    → Keyed n m
    → n ≤ 2 ^ 62
    → Owes (find i m) c r w
    → let (m', calls) = send_all message m in
      Owes (find i m') c (r + stream_count i read_done calls) (w + stream_count i write_done calls)
unfolding send_all find
send_all-Owes i n c r w message [] keyed h o = tt
send_all-Owes i n c r w message ((k, s) ∷ m) keyed h o = elim (Bool-cases (k == i)) [
  | inl here ↦
      let before : Owes (some s) c r w =
        Owes-cong {o = some s} {p = find i ((k, s) ∷ m)} {c = c} {c' = c} {r = r} {r' = r} {w = w}
          {w' = w} (ground arith) refl refl refl o in
      let after = sent-Owes s k c r w message keyed.1 (omega (arith, keyed)) before in
      let (t, calls) = send_response s message in
      let (m', more) = send_all message m in
      let quiet = λ (e : SessionEvent). send_all-quiet k n e message m keyed.3 h keyed.2 in
      let same : k ≡ i = ground arith in
      Owes-cong {o = find i ((k, t) ∷ m')} {p = some t} {c = c} {c' = c}
        {r = r + stream_count i read_done (map (on_stream k) calls ++ more)}
        {r' = r + stream_count k read_done (map (on_stream k) calls)}
        {w = w + stream_count i write_done (map (on_stream k) calls ++ more)}
        {w' = w + stream_count k write_done (map (on_stream k) calls)} (ground arith) refl
        (ground
          (arith, stream_count-append i read_done (map (on_stream k) calls) more, quiet read_done))
        (ground (
          arith,
          stream_count-append i write_done (map (on_stream k) calls) more,
          quiet write_done,
        ))
        after
  | inr there ↦
      let before : Owes (find i m) c r w =
        Owes-cong {o = find i m} {p = find i ((k, s) ∷ m)} {c = c} {c' = c} {r = r} {r' = r} {w = w}
          {w' = w} (ground arith) refl refl refl o in
      let after = send_all-Owes i n c r w message m keyed.3 h before in
      let (t, calls) = send_response s message in
      let (m', more) = send_all message m in
      let quiet =
        λ (e : SessionEvent). sent_quiet s i k e message keyed.1 (omega (arith, keyed)) there in
      Owes-cong {o = find i ((k, t) ∷ m')} {p = find i m'} {c = c} {c' = c}
        {r = r + stream_count i read_done (map (on_stream k) calls ++ more)}
        {r' = r + stream_count i read_done more}
        {w = w + stream_count i write_done (map (on_stream k) calls ++ more)}
        {w' = w + stream_count i write_done more} (ground arith) refl
        (ground
          (arith, stream_count-append i read_done (map (on_stream k) calls) more, quiet read_done))
        (ground (
          arith,
          stream_count-append i write_done (map (on_stream k) calls) more,
          quiet write_done,
        ))
        after
]
