-- ===== src/Greeter/Server/System/Pending.antt =====
-- What is to complete for one session behind a change of the session map (grpcdemo/server_async.cc).
use cpp_demo.Prelude.{
  ℕ, ◌+◌, ◌^◌, ◌<◌, ◌≤◌, ◌≡◌, refl, inl, inr, map, none, some, true, arith, ◌==◌, Bool-cases,
}
use cpp_demo.Greeter.Tag.{SessionEvent, connected, read_done, write_done, tagify, detagify_small}
use cpp_demo.Greeter.Session.{Session, ready_to_write, new_session, process_event}
use cpp_demo.Greeter.Server.{
  Server, on_stream, find, assign, erase, is_read_or_write, add_new_session,
}
use cpp_demo.Greeter.Server.Sessions.{Keyed, find-assign, find-erase, find_id}
use cpp_demo.Greeter.Server.System.Counts.{is_for, conn_count, stream_count}
use cpp_demo.Greeter.Server.System.Owes.{
  Owes, process_event-others, Owes-cong, progress-there, progress-here,
}

-- One identifier's share; one that was not given out has none.
abbrev pub DueAt : Server → ℕ → ℕ → ℕ → ℕ → Type 0
DueAt sv i c r w =
    Owes (find i sv.sessions) c r w × (sv.session_id_allocator ≤ i → (c ≡ 0) × (r ≡ 0) × (w ≡ 0))

module _ (sv : Server) (keyed : Keyed sv.session_id_allocator sv.sessions)
    (small : sv.session_id_allocator ≤ 2 ^ 62) (k i c r w : ℕ) where
  pub missing-Due :
      (e : SessionEvent)
      → k < 2 ^ 62
      → find k sv.sessions ≡ none
      → DueAt sv i
          (c + is_for i connected (tagify k e))
          (r + is_for i read_done (tagify k e))
          (w + is_for i write_done (tagify k e))
      → DueAt sv i c r w
  missing-Due e h gone (o, fresh) =
      let tag = detagify_small k e h in
      (
        elim (Bool-cases (k == i)) [
          | inl here ↦
              Owes-cong {o = find i sv.sessions} {p = none} {c = c} {c' = c} {r = r} {r' = r}
                {w = w} {w' = w} (ground arith) refl refl refl tt
          | inr there ↦
              Owes-cong {o = find i sv.sessions} {p = find i sv.sessions} {c = c} {r = r} {w = w}
                refl (ground (arith, tag)) (ground (arith, tag)) (ground (arith, tag)) o
        ],
        λ above. let z = fresh above in (omega arith, omega arith, omega arith),
      )

  pub erased-Due :
      (e : SessionEvent)
      → k < 2 ^ 62
      → DueAt sv i
          (c + is_for i connected (tagify k e))
          (r + is_for i read_done (tagify k e))
          (w + is_for i write_done (tagify k e))
      → DueAt (record sv { sessions = erase k sv.sessions }) i c r w
  erased-Due e h (o, fresh) =
      let tag = detagify_small k e h in
      let gone = find-erase sv.session_id_allocator k i sv.sessions keyed in
      (
        elim (Bool-cases (k == i)) [
          | inl here ↦
              Owes-cong {o = find i (erase k sv.sessions)} {p = none} {c = c} {c' = c} {r = r}
                {r' = r} {w = w} {w' = w} (ground (arith, gone)) refl refl refl tt
          | inr there ↦
              Owes-cong {o = find i (erase k sv.sessions)} {p = find i sv.sessions} {c = c} {r = r}
                {w = w} (ground (arith, gone)) (ground (arith, tag)) (ground (arith, tag))
                (ground (arith, tag)) o
        ],
        λ above. let z = fresh above in (omega arith, omega arith, omega arith),
      )

  pub worked-Due :
      (e : SessionEvent) (s : Session)
      → is_read_or_write e ≡ true
      → find k sv.sessions ≡ some s
      → let (t, calls) = process_event s e in
        DueAt sv i c (r + is_for i read_done (tagify k e)) (w + is_for i write_done (tagify k e))
        → DueAt
            (record sv { sessions = assign k t sv.sessions })
            i
            c
            (r + stream_count i read_done (map (on_stream k) calls))
            (w + stream_count i write_done (map (on_stream k) calls))
  worked-Due e s h found (o, fresh) =
      let (id, low) = find_id sv.session_id_allocator k sv.sessions s keyed found in
      (
        elim (Bool-cases (k == i)) [
          | inl here ↦ progress-here sv keyed small k s found i c r w e h (ground arith) o
          | inr there ↦ progress-there sv keyed small k s found i c r w e there o
        ],
        λ above.
            let z = fresh above in
            let quiet = process_event-others s k id (omega arith) 0 0 0 e i (ground arith) in
            (omega arith, omega (arith, quiet), omega (arith, quiet)),
      )

  pub connected-Due :
      (s : Session)
      → find k sv.sessions ≡ some s
      → DueAt sv i (c + is_for i connected (tagify k connected)) r w
      → DueAt
          (record sv { sessions = assign k (record s { status = ready_to_write }) sv.sessions })
          i
          c
          (r + is_for i read_done (tagify s.session_id read_done))
          w
  connected-Due s found (o, fresh) =
      let (id, low) = find_id sv.session_id_allocator k sv.sessions s keyed found in
      let t : Session = record s { status = ready_to_write } in
      let tag = detagify_small k connected (omega arith) in
      let posted = detagify_small k read_done (omega arith) in
      let changed = find-assign k i t sv.sessions in
      (
        elim (Bool-cases (k == i)) [
          | inl here ↦
              let before : Owes (some s) (c + 1) r w =
                Owes-cong {o = some s} {p = find i sv.sessions} {c = c + 1}
                  {c' = c + is_for i connected (tagify k connected)} {r = r} {r' = r} {w = w}
                  {w' = w} (ground arith) (ground (arith, tag)) refl refl o in
              let after : Owes (some t) c (r + 1) w = ground (arith, before) in
              Owes-cong {o = find i (assign k t sv.sessions)} {p = some t} {c = c} {c' = c}
                {r = r + is_for i read_done (tagify s.session_id read_done)} {r' = r + 1} {w = w}
                {w' = w} (ground (arith, changed)) refl (ground (arith, posted)) refl after
          | inr there ↦
              Owes-cong {o = find i (assign k t sv.sessions)} {p = find i sv.sessions} {c = c}
                {r = r + is_for i read_done (tagify s.session_id read_done)} {w = w}
                (ground (arith, changed)) (ground (arith, tag)) (ground (arith, posted)) refl o
        ],
        λ above. let z = fresh above in (omega arith, ground (arith, posted, z), omega arith),
      )

pub add_new_session-Due :
    (sv : Server) (i c r w : ℕ)
    → sv.session_id_allocator < 2 ^ 62
    → DueAt sv i c r w
    → DueAt (add_new_session sv).0 i (c + conn_count i connected (add_new_session sv).1) r w
unfolding add_new_session new_session
add_new_session-Due sv i c r w h (o, fresh) =
    let n = sv.session_id_allocator in
    let tag = detagify_small n connected h in
    let t = new_session n in
    let changed = find-assign n i t sv.sessions in
    (
      elim (Bool-cases (n == i)) [
        | inl here ↦
            let z = fresh (ground arith) in
            let after : Owes (some t) 1 0 0 = (refl, refl, refl) in
            Owes-cong {o = find i (assign n t sv.sessions)} {p = some t}
              {c = c + (is_for i connected (tagify n connected) + 0)} {c' = 1} {r = r} {r' = 0}
              {w = w} {w' = 0} (ground (arith, changed)) (ground (arith, tag, z)) (z.1) (z.2) after
        | inr there ↦
            Owes-cong {o = find i (assign n t sv.sessions)} {p = find i sv.sessions}
              {c = c + (is_for i connected (tagify n connected) + 0)} {r = r} {w = w}
              (ground (arith, changed)) (ground (arith, tag)) refl refl o
      ],
      λ above. let z = fresh (omega arith) in (ground (arith, z, tag), z.1, z.2),
    )
