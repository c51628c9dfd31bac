-- ===== src/RemoteAccess/Manager/Capacity.antt =====
-- session_manager.go: the number of sessions against `MaxConcurrentSessions`.
use onli_desk_full.Common.{
  ◌≡◌, refl, ◌∙◌, ◌⊎◌, inl, inr, ◌+◌, ◌≤◌, ℤ, pos, ◌≤ℤ◌, leb_ℤ, String, false, Option, none, some,
  List, [], ◌∷◌, arith, length, Bool-cases, All, eq_refl,
}
use onli_desk_full.Common.Map.{
  lookup, length-insert_new, length-insert-le, le-length-insert, lookup-insert,
}
use onli_desk_full.RemoteAccess.Config.{RemoteAccessConfig}
use onli_desk_full.RemoteAccess.Session.{Session, ClientInfo, max_sessions_reached}
use onli_desk_full.RemoteAccess.Manager.{
  Manager, created, refused, panicked, new_manager, create_session, opened,
}
use onli_desk_full.RemoteAccess.Manager.Counts.{count, step-length, step-config}
use onli_desk_full.RemoteAccess.Manager.Calls.{Call, creates, step, run, KeepsConfig}

stored :
    (fresh : String) (now : ℤ) (client portal : String) (i : Option ClientInfo) (m : Manager)
    → lookup fresh m.sessions ≡ none
    → leb_ℤ m.config.max_concurrent_sessions (pos (length m.sessions)) ≡ false
    → let r = create_session fresh now client portal i m in
      (s : Session) × (pos (length m.sessions + 1) ≤ℤ m.config.max_concurrent_sessions)
      × (lookup fresh r.0.sessions ≡ some s)
      × (length r.0.sessions ≡ length m.sessions + 1)
      × (r.1 ≡ elim i [ none ↦ panicked | some _ ↦ created s ])
unfolding create_session
stored fresh now client portal none m new room =
    rw (room, create_session)
      (
        opened fresh now client portal none m,
        ground arith,
        ground (
          arith,
          lookup-insert fresh fresh (opened fresh now client portal none m) m.sessions,
          eq_refl fresh,
        ),
        length-insert_new fresh _ m.sessions new,
        refl,
      )
stored fresh now client portal (some x) m new room =
    rw (room, create_session)
      (
        opened fresh now client portal (some x) m,
        ground arith,
        ground (
          arith,
          lookup-insert fresh fresh (opened fresh now client portal (some x) m) m.sessions,
          eq_refl fresh,
        ),
        length-insert_new fresh _ m.sessions new,
        refl,
      )

-- `CreateSession` on every branch: at the limit it refuses and changes nothing. Below the limit the
-- session is stored under the fresh identifier, so the number of sessions goes up by one; then the
-- call returns it if client information was given, and panics if not.
pub create_session_cases :
    (fresh : String) (now : ℤ) (client portal : String) (i : Option ClientInfo) (m : Manager)
    → lookup fresh m.sessions ≡ none
    → let r = create_session fresh now client portal i m in
      ((m.config.max_concurrent_sessions ≤ℤ pos (length m.sessions))
        × (r ≡ (m, refused max_sessions_reached)))
      ⊎ ((s : Session) × (pos (length m.sessions + 1) ≤ℤ m.config.max_concurrent_sessions)
          × (lookup fresh r.0.sessions ≡ some s)
          × (length r.0.sessions ≡ length m.sessions + 1)
          × (r.1 ≡ elim i [ none ↦ panicked | some _ ↦ created s ]))
unfolding create_session
create_session_cases fresh now client portal i m new =
    elim (Bool-cases (leb_ℤ m.config.max_concurrent_sessions (pos (length m.sessions)))) [
      | inl full ↦ inl (ground arith, rw (full, create_session) refl)
      | inr room ↦ inr (stored fresh now client portal i m new room)
    ]

creation_growth :
    (fresh : String) (now : ℤ) (client portal : String) (i : Option ClientInfo) (m : Manager)
    → (count m ≤ count (create_session fresh now client portal i m).0)
      × (m.config.max_concurrent_sessions ≤ℤ pos (count m)
          → create_session fresh now client portal i m ≡ (m, refused max_sessions_reached))
      × (pos (count m) ≤ℤ m.config.max_concurrent_sessions
          → pos (count (create_session fresh now client portal i m).0)
            ≤ℤ m.config.max_concurrent_sessions)
unfolding create_session
creation_growth fresh now client portal i m = ground (
  arith,
  length-insert-le fresh (opened fresh now client portal i m) m.sessions,
  le-length-insert fresh (opened fresh now client portal i m) m.sessions,
)

step_growth : (m : Manager) (c : Call) → count m ≤ count (step m c)
step_growth m (creates fresh now client portal i) =
    unfold step in (creation_growth fresh now client portal i m).0
step_growth m c = omega (arith, step-length m c tt)

run_growth : (m : Manager) (cs : List Call) → count m ≤ count (run m cs)
unfolding run
run_growth m [] = omega arith
run_growth m (c ∷ cs) = omega (arith, step_growth m c, run_growth (step m c) cs)

run-config : (m : Manager) (cs : List Call) → All KeepsConfig cs → (run m cs).config ≡ m.config
unfolding run
run-config m [] h = refl
run-config m (c ∷ cs) h = run-config (step m c) cs h.1 ∙ step-config m c h.0

step_bounded :
    (m : Manager) (c : Call)
    → KeepsConfig c
    → pos (count m) ≤ℤ m.config.max_concurrent_sessions
    → pos (count (step m c)) ≤ℤ (step m c).config.max_concurrent_sessions
step_bounded m (creates fresh now client portal i) k h =
    rw (step-config m (creates fresh now client portal i) k)
      (unfold step in (creation_growth fresh now client portal i m).2 h)
step_bounded m c k h = rw (step-config m c k, step-length m c tt) h

run_bounded :
    (m : Manager) (cs : List Call)
    → All KeepsConfig cs
    → pos (count m) ≤ℤ m.config.max_concurrent_sessions
    → pos (count (run m cs)) ≤ℤ (run m cs).config.max_concurrent_sessions
unfolding run
run_bounded m [] k h = h
run_bounded m (c ∷ cs) k h = run_bounded (step m c) cs k.1 (step_bounded m c k.0 h)

-- From a new manager whose limit is not negative, no sequence of calls without `UpdateConfig`
-- leads to more sessions than the configured limit.
pub sessions_bounded :
    (c : RemoteAccessConfig) (cs : List Call)
    → pos 0 ≤ℤ c.max_concurrent_sessions
    → All KeepsConfig cs
    → pos (count (run (new_manager c) cs)) ≤ℤ c.max_concurrent_sessions
unfolding new_manager
sessions_bounded c cs h k =
    rw (run-config (new_manager c) cs k) at (run_bounded (new_manager c) cs k h)

-- No call ever frees a place: once the limit is reached, then after any sequence of calls without
-- `UpdateConfig`, terminations and cleanups included, every creation is refused and changes nothing.
pub full_forever :
    (m : Manager) (cs : List Call)
    → m.config.max_concurrent_sessions ≤ℤ pos (count m)
    → All KeepsConfig cs
    → (fresh : String) (now : ℤ) (client portal : String) (i : Option ClientInfo)
    → create_session fresh now client portal i (run m cs) ≡ (run m cs, refused max_sessions_reached)
full_forever m cs h k fresh now client portal i =
    (creation_growth fresh now client portal i (run m cs)).1
      (rw (run-config m cs k) (omega (arith, run_growth m cs)))
