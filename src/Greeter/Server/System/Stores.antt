-- ===== src/Greeter/Server/System/Stores.antt =====
-- What a request that gRPC stores in a session of GreeterServer leaves as it was
-- (grpcdemo/server_async.cc).
use cpp_demo.Prelude.{ℕ, ◌≡◌, refl, inl, inr, none, some, Text, arith, ◌==◌, Bool-cases, Option}
use cpp_demo.Greeter.Session.{Session}
use cpp_demo.Greeter.Server.{Server, find, assign}
use cpp_demo.Greeter.Server.Sessions.{Keyed, Keyed-assign, find-assign, find_id}
use cpp_demo.Greeter.Server.System.{System, Inv, store, store_in}
use cpp_demo.Greeter.Server.System.Owes.{Owes, Owes-cong}
use cpp_demo.Greeter.Server.System.Pending.{DueAt}

module _ (sv : Server) (k : ℕ) (name : Text)
    (keyed : Keyed sv.session_id_allocator sv.sessions) where
  store_in-Keyed :
      (o : Option Session)
      → find k sv.sessions ≡ o
      → let u = store_in k name o sv in Keyed u.session_id_allocator u.sessions
  unfolding store_in
  store_in-Keyed none found = keyed
  store_in-Keyed (some s) found =
      let (id, low) = find_id sv.session_id_allocator k sv.sessions s keyed found in
      Keyed-assign sv.session_id_allocator k (record s { request_name = name }) sv.sessions low id
        keyed

  pub store-Keyed : let u = store k name sv in Keyed u.session_id_allocator u.sessions
  unfolding store
  store-Keyed = store_in-Keyed (find k sv.sessions) refl

module _ (sv : Server) (k : ℕ) (name : Text) (i c r w : ℕ) (due : DueAt sv i c r w) where
  store_in-Due :
      (o : Option Session) → find k sv.sessions ≡ o → DueAt (store_in k name o sv) i c r w
  unfolding store_in
  store_in-Due none found = due
  store_in-Due (some s) found =
      let t : Session = record s { request_name = name } in
      let changed = find-assign k i t sv.sessions in
      (
        elim (Bool-cases (k == i)) [
          | inl here ↦
              let before : Owes (some s) c r w =
                Owes-cong {o = some s} {p = find i sv.sessions} {c = c} {r = r} {w = w}
                  (ground arith) refl refl refl due.0 in
              let after : Owes (some t) c r w = before in
              Owes-cong {o = find i (assign k t sv.sessions)} {p = some t} {c = c} {r = r} {w = w}
                (ground (arith, changed)) refl refl refl after
          | inr there ↦
              Owes-cong {o = find i (assign k t sv.sessions)} {p = find i sv.sessions} {c = c}
                {r = r} {w = w} (ground (arith, changed)) refl refl refl due.0
        ],
        due.1,
      )

  pub store-Due : DueAt (store k name sv) i c r w
  unfolding store
  store-Due = store_in-Due (find k sv.sessions) refl

pub store-Inv :
    (y : System) (i : ℕ) (name : Text) → Inv y → Inv (record y { server = store i name y.server })
store-Inv y i name v = record {
  keyed = store-Keyed y.server i name v.keyed;
  conn_posted = v.conn_posted;
  stream_posted = v.stream_posted;
}
