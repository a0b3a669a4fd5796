-- ===== src/Greeter/Session/Tests.antt =====
-- The theorems on GreeterSession (grpcdemo/server_async.cc) after a short history.
use cpp_demo.Prelude.{◌≡◌, refl, List, [], ◌∷◌, codes, arith}
use cpp_demo.Greeter.Session.{ready_to_write}
use cpp_demo.Greeter.Session.Protocol.{
  Link, Event, Reach, Inv, here, next, fresh_link, connects, receives, sends, deliver, complete,
  session_Reach-Inv, complete-written,
}

-- A session that answered one request, and was sent one more message meanwhile.
abbrev after : List Event → Link
after [] = fresh_link 7
after (e ∷ es) = deliver (after es) e

abbrev busy : Link
busy = after (sends (codes "news") ∷ receives (codes "ann") ∷ connects ∷ [])

busy_reached : Reach (fresh_link 7) busy
unfolding deliver fresh_link
busy_reached =
    next (next (next here connects refl) (receives (codes "ann")) (omega arith))
      (sends (codes "news")) tt

session_Reach-Inv_example : Inv busy
session_Reach-Inv_example = session_Reach-Inv 7 busy_reached

complete-written_example :
    let m = complete 2 busy in
    Inv m
    × (m.session.status ≡ ready_to_write)
    × (m.session.message_queue ≡ [])
    × (m.written ≡ busy.accepted)
unfolding deliver fresh_link
complete-written_example = complete-written 1 busy (session_Reach-Inv 7 busy_reached) refl refl
