-- ===== src/Greeter/Server/Worker.antt =====
-- The worker's handler of GreeterServer and the session map (grpcdemo/server_async.cc,
-- StartWorkerThread).
use cpp_demo.Prelude.{
  ℕ, ◌^◌, ◌<◌, ◌≡◌, refl, List, [], map, Option, none, some, Option-cases, inl, inr, Bool, true,
  false, arith, if◌then◌else◌, ◌==◌,
}
use cpp_demo.Greeter.Tag.{SessionEvent, tagify, detagify_small}
use cpp_demo.Greeter.Session.{Session, process_event}
use cpp_demo.Greeter.Server.{
  Server, Call, on_stream, done, find, assign, erase, is_read_or_write, worker_event,
}
use cpp_demo.Greeter.Server.Sessions.{Keyed, find-assign, find-erase}

-- What the worker is to do with a session's completion.
abbrev pub worker_result : Option Session → SessionEvent → Bool → Option Session
worker_result none e ok = none
worker_result (some s) e true = some (process_event s e).0
worker_result (some s) e false = none

abbrev pub worker_calls : ℕ → Option Session → SessionEvent → Bool → List Call
worker_calls i none e ok = []
worker_calls i (some s) e true = map (on_stream i) (process_event s e).1
worker_calls i (some s) e false = []

-- The handler ends with these calls, changes the one session's entry, and adds no session.
abbrev pub WorkEffect : Server → ℕ → SessionEvent → Bool → Type 0
WorkEffect sv i e ok =
    (sv' : Server) × (worker_event sv (tagify i e) ok
      ≡ done sv' (worker_calls i (find i sv.sessions) e ok))
    × ((j : ℕ)
        → find j sv'.sessions
          ≡ (if i == j then worker_result (find i sv.sessions) e ok else find j sv.sessions))
    × (sv'.session_id_allocator ≡ sv.session_id_allocator)

module _ (sv : Server) (i : ℕ) (e : SessionEvent) (w : Keyed sv.session_id_allocator sv.sessions)
    (small : i < 2 ^ 62) (r : is_read_or_write e ≡ true) where
  effect_unknown : (ok : Bool) → find i sv.sessions ≡ none → WorkEffect sv i e ok
  unfolding worker_event
  effect_unknown ok missing = (sv, ground (arith, detagify_small i e), λ j. ground arith, refl)

  effect_found : (ok : Bool) (s : Session) → find i sv.sessions ≡ some s → WorkEffect sv i e ok
  unfolding worker_event
  effect_found true s found = (
    record sv { sessions = assign i (process_event s e).0 sv.sessions },
    ground (arith, detagify_small i e),
    λ j. ground (arith, find-assign i j (process_event s e).0 sv.sessions),
    refl,
  )
  effect_found false s found = (
    record sv { sessions = erase i sv.sessions },
    ground (arith, detagify_small i e),
    λ j. ground (arith, find-erase sv.session_id_allocator i j sv.sessions w),
    refl,
  )

-- A completed Read or Write: an unknown session is ignored, a failure removes its session, a success
-- is processed by its session. In each case every other session is as it was, and no session is added.
pub worker_event_effect :
    (sv : Server) (i : ℕ) (e : SessionEvent) (ok : Bool)
    → Keyed sv.session_id_allocator sv.sessions
    → i < 2 ^ 62
    → is_read_or_write e ≡ true
    → WorkEffect sv i e ok
worker_event_effect sv i e ok w h r = elim (Option-cases (find i sv.sessions)) [
  | inl missing ↦ effect_unknown sv i e w h r ok missing
  | inr (s, found) ↦ effect_found sv i e w h r ok s found
]
