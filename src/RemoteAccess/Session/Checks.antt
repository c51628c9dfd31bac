-- ===== src/RemoteAccess/Session/Checks.antt =====
-- session.go: the two questions that depend on the clock, `IsExpired` and `HasActivePrivilege`.
use onli_desk_full.Common.{
  ℤ, ◌+ℤ◌, ◌-ℤ◌, ◌≤ℤ◌, ◌<ℤ◌, ltb_ℤ, max_int64, min_int64, ltb-sat64, -ℤ_parts, +ℤ_parts, ◌==◌, ◌≡◌,
  ◌≢◌, ◌↔◌, refl, true, false, none, some, arith, eq_iff, if◌then◌else◌, Option-cases, Bool-cases,
  inl, inr,
}
use onli_desk_full.Common.Map.{lookup, lookup-delete}
use onli_desk_full.RemoteAccess.Session.{
  Session, SessionSettings, ActivePrivilege, PrivilegeType, SessionStatus, sub_time, is_expired,
  has_active_privilege,
}

-- Timeouts in the range of a `time.Duration`, its ends left out.
pub record InRange (t : SessionSettings) : Type 0 where
  pub session_low : min_int64 ≤ℤ t.session_timeout
  pub session_high : t.session_timeout <ℤ max_int64
  pub idle_low : min_int64 ≤ℤ t.idle_timeout
  pub idle_high : t.idle_timeout <ℤ max_int64

exceeds :
    (now start timeout : ℤ)
    → min_int64 ≤ℤ timeout
    → timeout <ℤ max_int64
    → (ltb_ℤ timeout (sub_time now start) ≡ false) ↔ (now ≤ℤ start +ℤ timeout)
exceeds now start timeout low high =
    rw (ltb-sat64 timeout (now -ℤ start) low high)
      (ground (arith, -ℤ_parts now start, +ℤ_parts start timeout))

no_test_fires :
    (now : ℤ) (s : Session)
    → (is_expired now s ≡ false) ↔ (
        (s.status ≢ SessionStatus.terminated)
        × (s.status ≢ SessionStatus.expired)
        × (ltb_ℤ s.settings.session_timeout (sub_time now s.start_time) ≡ false)
        × (ltb_ℤ s.settings.idle_timeout (sub_time now s.last_activity) ≡ false))
unfolding is_expired
no_test_fires now s = ground arith

-- With timeouts in range, a session has not expired exactly when it is neither terminated nor
-- marked expired, the session timeout has not passed since its start, and the idle timeout has not
-- passed since its last activity.
pub is_expired_iff :
    (now : ℤ) (s : Session)
    → InRange s.settings
    → (is_expired now s ≡ false) ↔ (
        (s.status ≢ SessionStatus.terminated)
        × (s.status ≢ SessionStatus.expired)
        × (now ≤ℤ s.start_time +ℤ s.settings.session_timeout)
        × (now ≤ℤ s.last_activity +ℤ s.settings.idle_timeout))
is_expired_iff now s r =
    let a = exceeds now s.start_time s.settings.session_timeout r.session_low r.session_high in
    let b = exceeds now s.last_activity s.settings.idle_timeout r.idle_low r.idle_high in
    let tests = no_test_fires now s in
    (
      λ h. let (c, d, e, f) = tests.0 h in (c, d, a.0 e, b.0 f),
      λ (c, d, e, f). tests.1 (c, d, a.1 e, b.1 f),
    )

-- The answer is yes exactly when the privilege is recorded and its expiry has not passed. After
-- a no the privilege is not recorded any more, after a yes nothing has changed, and the privileges of other types are as they were.
pub has_active_privilege_lem :
    (now : ℤ) (type : PrivilegeType) (s : Session)
    → (((has_active_privilege now type s).1 ≡ true) ↔ (
        (p : ActivePrivilege) × (lookup type s.active_privileges ≡ some p) × (now ≤ℤ p.expires_at)))
      × ((j : PrivilegeType)
          → lookup j (has_active_privilege now type s).0.active_privileges ≡ (
              if type == j
              then if (has_active_privilege now type s).1
                then lookup j s.active_privileges
                else none
              else lookup j s.active_privileges))
unfolding has_active_privilege
has_active_privilege_lem now type s = elim (Option-cases (lookup type s.active_privileges)) [
  | inl q ↦ rw (q, has_active_privilege) (ground arith, λ j. ground (arith, eq_iff type j))
  | inr (p, q) ↦ elim (Bool-cases (ltb_ℤ p.expires_at now)) [
    | inl late ↦
        rw (q, has_active_privilege, late)
          (
            (λ h. absurd (ground arith), λ (p', q', le). ground arith),
            λ j. ground (arith, eq_iff type j, lookup-delete type j s.active_privileges),
          )
    | inr still ↦
        rw (q, has_active_privilege, still)
          ((λ h. (p, refl, ground arith), λ (p', q', le). refl), λ j. ground (arith, eq_iff type j))
  ]
]
