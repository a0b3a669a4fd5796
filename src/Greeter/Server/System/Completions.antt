-- ===== src/Greeter/Server/System/Completions.antt =====
-- What the handlers of a completion leave to complete (grpcdemo/server_async.cc).
use cpp_demo.Greeter.Server.System.Counts.{is_for, conn_count, stream_count}
use cpp_demo.Prelude.{
  ℕ, ◌+◌, ◌^◌, ◌<◌, ◌≤◌, ◌≡◌, refl, sym, ◌∙◌, inl, inr, List, [], ◌∷◌, map, none, some, Bool, true,
  false, arith, Option-cases,
}
use mathlib.Core.Path.{transport}
use cpp_demo.Greeter.Tag.{
  SessionEvent, connected, read_done, write_done, tagify, detagify, detagify_small,
}
use cpp_demo.Greeter.Session.{Session, ready_to_write, StreamCall, read, process_event}
use cpp_demo.Greeter.Server.{
  Server, Call, on_stream, Outcome, done, find, assign, erase, is_read_or_write, accepter_event,
  worker_event, add_new_session,
}
use cpp_demo.Greeter.Server.Sessions.{Keyed, find_id}
use cpp_demo.Greeter.Server.{accepted, worked}
use cpp_demo.Greeter.Server.System.Pending.{
  DueAt, missing-Due, erased-Due, worked-Due, connected-Due, add_new_session-Due,
}

pub DueAt-cong :
    (sv : Server) (i : ℕ) (c c' r r' w w' : ℕ)
    → c ≡ c'
    → r ≡ r'
    → w ≡ w'
    → DueAt sv i c' r' w'
    → DueAt sv i c r w
DueAt-cong sv i c c' r r' w w' a b d h = transport (λ k. DueAt sv i (sym a k) (sym b k) (sym d k)) h

-- An outcome's server has the shares that are left, and those of its calls.
abbrev pub Shares : Outcome → ℕ → ℕ → ℕ → ℕ → Type 0
Shares o i c r w =
    (sv : Server) (calls : List Call)
    → o ≡ done sv calls
    → DueAt sv i (c + conn_count i connected calls) (r + stream_count i read_done calls)
        (w + stream_count i write_done calls)

done-Shares :
    (sv sv' : Server) (calls calls' : List Call) (i c r w : ℕ)
    → done sv calls ≡ done sv' calls'
    → DueAt sv i
        (c + conn_count i connected calls)
        (r + stream_count i read_done calls)
        (w + stream_count i write_done calls)
    → DueAt sv' i
        (c + conn_count i connected calls')
        (r + stream_count i read_done calls')
        (w + stream_count i write_done calls')
done-Shares sv sv' calls calls' i c r w e h =
    let a : sv ≡ sv' = cc in
    let b : calls ≡ calls' = cc in
    transport
      (λ k.
        DueAt (a k) i (c + conn_count i connected (b k)) (r + stream_count i read_done (b k))
          (w + stream_count i write_done (b k)))
      h

none-Shares : (sv : Server) (i c r w : ℕ) → DueAt sv i c r w → Shares (done sv []) i c r w
none-Shares sv i c r w h sv' calls e =
    done-Shares sv sv' [] calls i c r w e
      (DueAt-cong sv i (c + 0) c (r + 0) r (w + 0) w (omega arith) (omega arith) (omega arith) h)

conn_count-on_stream :
    (i k : ℕ) (e : SessionEvent) (cs : List StreamCall) → conn_count i e (map (on_stream k) cs) ≡ 0
conn_count-on_stream i k e [] = refl
conn_count-on_stream i k e (c ∷ cs) = conn_count-on_stream i k e cs

module _ (sv : Server) (keyed : Keyed sv.session_id_allocator sv.sessions) (k : ℕ)
    (low : k < 2 ^ 62) (i c r w : ℕ) where
  worked-Shares :
      (e : SessionEvent) (s : Session)
      → sv.session_id_allocator ≤ 2 ^ 62
      → is_read_or_write e ≡ true
      → find k sv.sessions ≡ some s
      → DueAt sv i c (r + is_for i read_done (tagify k e)) (w + is_for i write_done (tagify k e))
      → Shares (worked k s e sv) i c r w
  unfolding worked
  worked-Shares e s small h found due sv' calls p =
      let (t, cs) = process_event s e in
      let d = worked-Due sv keyed small k i c r w e s h found due in
      let q : done (record sv { sessions = assign k t sv.sessions }) (map (on_stream k) cs)
          ≡ done sv' calls =
        ground arith in
      done-Shares _ sv' _ calls i c r w q (
        DueAt-cong (record sv { sessions = assign k t sv.sessions }) i
          (c + conn_count i connected (map (on_stream k) cs)) c _ _ _ _
          (ground (arith, conn_count-on_stream i k connected cs)) refl refl d)

  accepted-Shares :
      (s : Session)
      → sv.session_id_allocator < 2 ^ 62
      → find k sv.sessions ≡ some s
      → DueAt sv i (c + is_for i connected (tagify k connected)) r w
      → Shares (accepted k s connected sv) i c r w
  unfolding accepted process_event add_new_session
  accepted-Shares s small found due sv' calls p =
      let d = connected-Due sv keyed (omega arith) k i c r w s found due in
      let (id, low) = find_id sv.session_id_allocator k sv.sessions s keyed found in
      let tag = detagify_small s.session_id read_done (omega arith) in
      let mid : Server = record sv {
        sessions = assign k (record s { status = ready_to_write }) sv.sessions;
      } in
      let f =
        add_new_session-Due mid i c (r + is_for i read_done (tagify s.session_id read_done)) w small
          d in
      let more = (add_new_session mid).1 in
      let posted = on_stream k (read (tagify s.session_id read_done)) in
      done-Shares (add_new_session mid).0 sv' (posted ∷ more) calls i c r w p (
        DueAt-cong (add_new_session mid).0 i _ _ (r + stream_count i read_done (posted ∷ more))
          (r + is_for i read_done (tagify s.session_id read_done))
          (w + stream_count i write_done (posted ∷ more)) w refl (omega arith) (ground (arith, tag))
          f)

  missing-Shares :
      (e : SessionEvent) (o : Outcome)
      → find k sv.sessions ≡ none
      → o ≡ done sv []
      → sv.session_id_allocator ≤ 2 ^ 62
      → DueAt sv i
          (c + is_for i connected (tagify k e))
          (r + is_for i read_done (tagify k e))
          (w + is_for i write_done (tagify k e))
      → Shares o i c r w
  missing-Shares e o gone q small due sv' calls p =
      none-Shares sv i c r w (missing-Due sv keyed small k i c r w e low gone due) sv' calls
        (sym q ∙ p)

  erased-Shares :
      (e : SessionEvent) (o : Outcome)
      → o ≡ done (record sv { sessions = erase k sv.sessions }) []
      → sv.session_id_allocator ≤ 2 ^ 62
      → DueAt sv i
          (c + is_for i connected (tagify k e))
          (r + is_for i read_done (tagify k e))
          (w + is_for i write_done (tagify k e))
      → Shares o i c r w
  erased-Shares e o q small due sv' calls p =
      none-Shares (record sv { sessions = erase k sv.sessions }) i c r w
        (erased-Due sv keyed small k i c r w e low due) sv' calls (sym q ∙ p)

  pub accepter_event-Shares :
      (ok : Bool)
      → sv.session_id_allocator < 2 ^ 62
      → DueAt sv i (c + is_for i connected (tagify k connected)) r w
      → Shares (accepter_event sv (tagify k connected) ok) i c r w
  unfolding accepter_event
  accepter_event-Shares ok small due = elim (Option-cases (find k sv.sessions)) [
    | inl gone ↦ missing-Shares connected _ gone (ground (arith, tag)) (omega arith) whole
    | inr (s, found) ↦ by_ok ok s found
  ]
    where
      tag : detagify (tagify k connected) ≡ (k, connected)
      tag = detagify_small k connected low

      whole :
          DueAt sv i
            (c + is_for i connected (tagify k connected))
            (r + is_for i read_done (tagify k connected))
            (w + is_for i write_done (tagify k connected))
      whole =
          DueAt-cong sv i _ _ (r + is_for i read_done (tagify k connected)) r
            (w + is_for i write_done (tagify k connected)) w refl (ground (arith, tag))
            (ground (arith, tag)) due

      by_ok :
          (ok : Bool) (s : Session)
          → find k sv.sessions ≡ some s
          → Shares (accepter_event sv (tagify k connected) ok) i c r w
      by_ok true s found sv' calls p =
          accepted-Shares s small found due sv' calls (ground (arith, tag))
      by_ok false s found sv' calls p =
          erased-Shares connected _ (ground (arith, tag)) (omega arith) whole sv' calls p

  pub worker_event-Shares :
      (e : SessionEvent) (ok : Bool)
      → is_read_or_write e ≡ true
      → sv.session_id_allocator ≤ 2 ^ 62
      → DueAt sv i c (r + is_for i read_done (tagify k e)) (w + is_for i write_done (tagify k e))
      → Shares (worker_event sv (tagify k e) ok) i c r w
  unfolding worker_event
  worker_event-Shares e ok h small due = elim (Option-cases (find k sv.sessions)) [
    | inl gone ↦ missing-Shares e _ gone (ground (arith, tag)) small whole
    | inr (s, found) ↦ by_ok ok s found
  ]
    where
      tag : detagify (tagify k e) ≡ (k, e)
      tag = detagify_small k e low

      whole :
          DueAt sv i
            (c + is_for i connected (tagify k e))
            (r + is_for i read_done (tagify k e))
            (w + is_for i write_done (tagify k e))
      whole =
          DueAt-cong sv i (c + is_for i connected (tagify k e)) c _ _ _ _ (ground (arith, tag)) refl
            refl due

      by_ok :
          (ok : Bool) (s : Session)
          → find k sv.sessions ≡ some s
          → Shares (worker_event sv (tagify k e) ok) i c r w
      by_ok true s found sv' calls p =
          worked-Shares e s small h found due sv' calls (ground (arith, tag))
      by_ok false s found sv' calls p =
          erased-Shares e _ (ground (arith, tag)) small whole sv' calls p
