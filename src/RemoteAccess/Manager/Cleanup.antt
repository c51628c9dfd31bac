-- ===== src/RemoteAccess/Manager/Cleanup.antt =====
-- session_manager.go: `cleanupExpiredSessions`, against what it does to each session.
use onli_desk_full.Common.{
  ◌≡◌, refl, ap, ◌∙◌, inl, inr, ℤ, String, ◌==◌, eq_iff, Bool, true, false, ◌||◌, Option, none,
  some, List, [], ◌∷◌, arith, if◌then◌else◌, Option-cases,
}
use onli_desk_full.Common.Map.{Map, lookup, lookup-insert, IsMap, insert-IsMap}
use onli_desk_full.RemoteAccess.Session.{Session, SessionStatus, is_expired, sub_time}
use onli_desk_full.RemoteAccess.Manager.{Manager}
use onli_desk_full.RemoteAccess.Manager.Upkeep.{
  expired_ids, expire_session, expire_all, cleanup_expired_sessions,
}

-- A session that a cleanup ends: `StatusExpired` is overwritten by `Terminate`.
abbrev pub ended : ℤ → Session → Session
ended now s = record s {
  status = SessionStatus.terminated;
  end_time = some now;
  statistics = record stats { duration = sub_time now s.start_time };
}
  where
    open s use {statistics as stats}

abbrev end_if : Bool → ℤ → Option Session → Option Session
end_if b now none = none
end_if true now (some s) = some (ended now s)
end_if false now (some s) = some s

end_if_twice :
    (now : ℤ) (a b : Bool) (o : Option Session)
    → end_if a now (end_if b now o) ≡ end_if (b || a) now o
end_if_twice now a b none = refl
end_if_twice now true true (some s) = refl
end_if_twice now true false (some s) = refl
end_if_twice now false true (some s) = refl
end_if_twice now false false (some s) = refl

abbrev contains : String → List String → Bool
contains k [] = false
contains k (x ∷ xs) = x == k || contains k xs

lookup-expire_session :
    (now : ℤ) (id k : String) (m : Manager)
    → lookup k (expire_session now id m).sessions ≡ end_if (id == k) now (lookup k m.sessions)
unfolding expire_session
lookup-expire_session now id k m = elim (Option-cases (lookup id m.sessions)) [
  | inl gone ↦ rw (gone, expire_session) (ground (arith, eq_iff id k))
  | inr (s, found) ↦
      rw (found, expire_session)
        (ground (arith, eq_iff id k, lookup-insert id k (ended now s) m.sessions))
]

lookup-expire_all :
    (now : ℤ) (ids : List String) (k : String) (m : Manager)
    → lookup k (expire_all now ids m).sessions ≡ end_if (contains k ids) now (lookup k m.sessions)
unfolding expire_all
lookup-expire_all now [] k m = ground arith
lookup-expire_all now (id ∷ ids) k m =
    lookup-expire_all now ids k (expire_session now id m)
    ∙ ap (end_if (contains k ids) now) (lookup-expire_session now id k m)
    ∙ end_if_twice now (contains k ids) (id == k) (lookup k m.sessions)

contains-expired_ids :
    (now : ℤ) (k : String) (ss : Map Session)
    → IsMap ss
    → contains k (expired_ids now ss)
      ≡ elim (lookup k ss) [ none ↦ false | some s ↦ is_expired now s ]
unfolding expired_ids lookup
contains-expired_ids now k [] d = refl
contains-expired_ids now k ((id, s) ∷ ss) d =
    ground (arith, d, contains-expired_ids now k ss d.1, eq_iff id k)

at_option :
    (now : ℤ) (o : Option Session)
    → end_if (elim o [ none ↦ false | some s ↦ is_expired now s ]) now o
      ≡ elim o [ none ↦ none | some s ↦ if is_expired now s then some (ended now s) else some s ]
at_option now none = refl
at_option now (some s) = ground arith

is_expired-ended : (now later : ℤ) (s : Session) → is_expired later (ended now s) ≡ true
unfolding is_expired
is_expired-ended now later s = refl

-- In a map where each key stands once, a cleanup visits every session once: one that has expired at that time is terminated, with that
-- time as its end, and every other is left as it was. No session leaves the map.
pub lookup-cleanup_expired_sessions :
    (now : ℤ) (m : Manager)
    → IsMap m.sessions
    → (k : String)
    → lookup k (cleanup_expired_sessions now m).sessions ≡ elim (lookup k m.sessions) [
      | none ↦ none
      | some s ↦ if is_expired now s then some (ended now s) else some s
    ]
unfolding cleanup_expired_sessions
lookup-cleanup_expired_sessions now m d k =
    lookup-expire_all now (expired_ids now m.sessions) k m
    ∙ rw (contains-expired_ids now k m.sessions d) (at_option now (lookup k m.sessions))

expire_all-IsMap :
    (now : ℤ) (ids : List String) (m : Manager)
    → IsMap m.sessions
    → IsMap (expire_all now ids m).sessions
unfolding expire_all
expire_all-IsMap now [] m d = d
expire_all-IsMap now (id ∷ ids) m d =
    expire_all-IsMap now ids (expire_session now id m) (elim (Option-cases (lookup id m.sessions)) [
      | inl gone ↦ rw (gone, expire_session) d
      | inr (s, found) ↦ rw (found, expire_session) (insert-IsMap id _ m.sessions d)
    ])

cleanup-IsMap :
    (now : ℤ) (m : Manager) → IsMap m.sessions → IsMap (cleanup_expired_sessions now m).sessions
cleanup-IsMap now m d =
    unfold cleanup_expired_sessions in expire_all-IsMap now (expired_ids now m.sessions) m d

-- In a map where each key stands once, a session that has expired at a cleanup is ended by it and
-- ended again by the next one, with a new end time and duration.
pub cleanup_ends_again :
    (now later : ℤ) (m : Manager)
    → IsMap m.sessions
    → (k : String) (s : Session) → lookup k m.sessions ≡ some s
    → is_expired now s ≡ true
    → lookup k (cleanup_expired_sessions later (cleanup_expired_sessions now m)).sessions
      ≡ some (ended later s)
cleanup_ends_again now later m d k s found e = ground (
  arith,
  lookup-cleanup_expired_sessions now m d k,
  lookup-cleanup_expired_sessions later (cleanup_expired_sessions now m) (cleanup-IsMap now m d) k,
  is_expired-ended now later s,
)
