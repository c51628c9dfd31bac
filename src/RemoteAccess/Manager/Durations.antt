-- ===== src/RemoteAccess/Manager/Durations.antt =====
-- session_manager.go: the duration of every privilege that is active in a managed session.
use onli_desk_full.Common.{
  ◌≡◌, refl, ◌∙◌, inl, inr, ℤ, ◌+ℤ◌, ◌≤ℤ◌, +ℤ_parts, String, Option, some, List, [], ◌∷◌, ◌++◌,
  arith, All,
}
use onli_desk_full.Common.Map.{lookup}
use onli_desk_full.RemoteAccess.Config.{RemoteAccessConfig}
use onli_desk_full.RemoteAccess.Session.{
  Session, PrivilegeRequest, ActivePrivilege, PrivilegeType, ClientInfo, Conn, ok, Result-cases,
  decide_request, approve, deny, update_activity, request_privilege, approve_privilege,
  deny_privilege, revoke_privilege, has_active_privilege, terminate, increment_command,
  add_file_transfer, increment_screenshot,
}
use onli_desk_full.RemoteAccess.Session.Calls as SessionCalls
use onli_desk_full.RemoteAccess.Session.Requests.{decide_request-cons}
use onli_desk_full.RemoteAccess.Session.Backing.{BackedBy, IsBacked, step-IsBacked}
use onli_desk_full.RemoteAccess.Manager.{
  Manager, opened, attach, detach, max_duration, clamp_duration, new_manager,
}
use onli_desk_full.RemoteAccess.Manager.Counts.{step-config}
use onli_desk_full.RemoteAccess.Manager.Calls.{
  Call, requests, updates, direct, step, run, KeepsConfig,
}
use onli_desk_full.RemoteAccess.Manager.Keeps.{Stable, Admits, AdmitsAll, run_new-Every}

-- No request asks for more than `cap`.
abbrev ShortRequests : ℤ → List PrivilegeRequest → Type 0
ShortRequests cap = All (λ r. r.duration ≤ℤ cap)

ShortRequests-append :
    (cap : ℤ) (rs : List PrivilegeRequest) (r : PrivilegeRequest)
    → ShortRequests cap rs
    → r.duration ≤ℤ cap
    → ShortRequests cap (rs ++ r ∷ [])
ShortRequests-append cap [] r h k = (k, tt)
ShortRequests-append cap (x ∷ rs) r h k = (h.0, ShortRequests-append cap rs r h.1 k)

ShortRequests-decide_request :
    (cap : ℤ) (k : String) (f : PrivilegeRequest → PrivilegeRequest)
    → ((r : PrivilegeRequest) → (f r).duration ≡ r.duration)
    → (rs : List PrivilegeRequest) (x : PrivilegeRequest) (rs' : List PrivilegeRequest)
    → decide_request k f rs ≡ ok (x, rs')
    → ShortRequests cap rs
    → ShortRequests cap rs'
ShortRequests-decide_request cap k f same [] x rs' e h =
    absurd (unfold decide_request in ground arith)
ShortRequests-decide_request cap k f same (r ∷ rs) x rs' e h =
    elim (decide_request-cons k f r rs x rs' e) [
      | inl (_, _, q) ↦ rw q (rw (same r) h.0, h.1)
      | inr (ys, d, q) ↦ rw q (h.0, ShortRequests-decide_request cap k f same rs x ys d h.1)
    ]

-- Every active privilege is backed by an approved request, and no request is longer than `cap`.
record IsCapped (cap : ℤ) (s : Session) : Type 0 where
  backing : IsBacked s
  short : ShortRequests cap s.privileges

-- A direct call that requests no privilege.
abbrev pub NoRequest : SessionCalls.Call → Type 0
NoRequest (SessionCalls.requests _ _ _ _ _) = ⊥
NoRequest _ = Unit

approves-short :
    (cap now : ℤ) (k by : String) (s : Session)
    → ShortRequests cap s.privileges
    → ShortRequests cap (SessionCalls.after s (approve_privilege now k by s)).privileges
unfolding approve_privilege
approves-short cap now k by s h =
    elim (Result-cases (decide_request k (approve now by) s.privileges)) [
      | inl (e, q) ↦ rw (q, approve_privilege) h
      | inr ((x, rs), q) ↦
          rw (q, approve_privilege)
            (ShortRequests-decide_request cap k (approve now by) (λ r. refl) s.privileges x rs q h)
    ]

denies-short :
    (cap : ℤ) (k by : String) (s : Session)
    → ShortRequests cap s.privileges
    → ShortRequests cap (SessionCalls.after s (deny_privilege k by s)).privileges
unfolding deny_privilege
denies-short cap k by s h = elim (Result-cases (decide_request k (deny by) s.privileges)) [
  | inl (e, q) ↦ rw (q, deny_privilege) h
  | inr ((x, rs), q) ↦
      rw (q, deny_privilege)
        (ShortRequests-decide_request cap k (deny by) (λ r. refl) s.privileges x rs q h)
]

-- The other methods leave the list of requests alone.
revokes-privileges :
    (type : PrivilegeType) (s : Session)
    → (SessionCalls.after s (revoke_privilege type s)).privileges ≡ s.privileges
unfolding revoke_privilege
revokes-privileges type s = ground arith

asks-privileges :
    (now : ℤ) (type : PrivilegeType) (s : Session)
    → (has_active_privilege now type s).0.privileges ≡ s.privileges
unfolding has_active_privilege
asks-privileges now type s = ground arith

step-short :
    (cap : ℤ) (c : SessionCalls.Call) (s : Session)
    → NoRequest c
    → ShortRequests cap s.privileges
    → ShortRequests cap (SessionCalls.step s c).privileges
unfolding SessionCalls.step
step-short cap (SessionCalls.touches now) s n h = unfold update_activity in h
step-short cap (SessionCalls.requests fresh now type text d) s n h = absurd n
step-short cap (SessionCalls.approves now k by) s n h = approves-short cap now k by s h
step-short cap (SessionCalls.denies k by) s n h = denies-short cap k by s h
step-short cap (SessionCalls.revokes type) s n h = rw (revokes-privileges type s) h
step-short cap (SessionCalls.asks now type) s n h = rw (asks-privileges now type s) h
step-short cap (SessionCalls.terminates now) s n h = unfold terminate in h
step-short cap (SessionCalls.commands now text) s n h = unfold increment_command in h
step-short cap (SessionCalls.transfers now bytes) s n h = unfold add_file_transfer in h
step-short cap (SessionCalls.screenshots now) s n h = unfold increment_screenshot in h

IsCapped-step :
    (cap : ℤ) (c : SessionCalls.Call) (s : Session)
    → NoRequest c
    → IsCapped cap s
    → IsCapped cap (SessionCalls.step s c)
IsCapped-step cap c s n v = record {
  backing = step-IsBacked s c v.backing;
  short = step-short cap c s n v.short;
}

-- A method that leaves both lists of privileges alone.
untouched :
    (cap : ℤ) (s t : Session)
    → t.privileges ≡ s.privileges
    → t.active_privileges ≡ s.active_privileges
    → IsCapped cap s
    → IsCapped cap t
untouched cap s t p q v = record {
  backing = record { backed = λ type a h. rw p (v.backing.backed type a (rw q at h)) };
  short = rw p v.short;
}

attach_untouched :
    (now : ℤ) (role : String) (c : Conn) (s : Session)
    → ((update_activity now (attach role c s)).privileges ≡ s.privileges)
      × ((update_activity now (attach role c s)).active_privileges ≡ s.active_privileges)
unfolding update_activity attach
attach_untouched now role c s = ground arith

detach_untouched :
    (role : String) (s : Session)
    → ((detach role s).privileges ≡ s.privileges)
      × ((detach role s).active_privileges ≡ s.active_privileges)
unfolding detach
detach_untouched role s = ground arith

opened-IsCapped :
    (cap : ℤ) (fresh : String) (now : ℤ) (client portal : String) (i : Option ClientInfo)
    (m : Manager)
    → IsCapped cap (opened fresh now client portal i m)
unfolding opened lookup
opened-IsCapped cap fresh now client portal i m = record {
  backing = record { backed = λ type p h. absurd (ground arith) };
  short = tt;
}

asks-IsCapped :
    (cap : ℤ) (fresh : String) (now : ℤ) (type : PrivilegeType) (text : String) (d : ℤ)
    (s : Session)
    → d ≤ℤ cap
    → IsCapped cap s
    → IsCapped cap (request_privilege fresh now type text d s).0
asks-IsCapped cap fresh now type text d s fits v = record {
  backing =
      unfold SessionCalls.step in
      step-IsBacked s (SessionCalls.requests fresh now type text d) v.backing;
  short = unfold request_privilege in ShortRequests-append cap s.privileges _ v.short fits;
}

IsCapped-stable : (cap : ℤ) → Stable (IsCapped cap) (λ d. d ≤ℤ cap) NoRequest
unfolding SessionCalls.step
IsCapped-stable cap = record {
  opens = opened-IsCapped cap;
  attaches =
      λ now role c s v. let (p, q) = attach_untouched now role c s in untouched cap s _ p q v;
  detaches = λ role s v. let (p, q) = detach_untouched role s in untouched cap s _ p q v;
  ends = λ now s v. untouched cap s _ (unfold terminate in refl) (unfold terminate in refl) v;
  expires = λ now s v. untouched cap s _ (unfold terminate in refl) (unfold terminate in refl) v;
  asks = asks-IsCapped cap;
  approves = λ now k by s v. IsCapped-step cap (SessionCalls.approves now k by) s tt v;
  denies = λ k by s v. IsCapped-step cap (SessionCalls.denies k by) s tt v;
  revokes = λ type s v. IsCapped-step cap (SessionCalls.revokes type) s tt v;
  calls = IsCapped-step cap;
}

-- The calls of the manager, and direct calls that request no privilege; no `UpdateConfig`.
abbrev pub IsManaged : Call → Type 0
IsManaged (updates c) = ⊥
IsManaged (direct id c) = NoRequest c
IsManaged _ = Unit

clamp_duration-le : (c : RemoteAccessConfig) (d : ℤ) → clamp_duration c d ≤ℤ max_duration c
unfolding clamp_duration
clamp_duration-le c d = ground arith

IsManaged-Admits :
    (c : RemoteAccessConfig) (m : Manager) (call : Call)
    → m.config ≡ c
    → IsManaged call
    → Admits
        (IsCapped (max_duration c))
        (λ d. d ≤ℤ max_duration c)
        NoRequest
        (IsCapped-stable (max_duration c))
        m
        call
IsManaged-Admits c m (requests fresh now id type text d) e g =
    rw (← e) (clamp_duration-le m.config d)
IsManaged-Admits c m (direct id call) e g = g
IsManaged-Admits c m call e g = tt

IsManaged-KeepsConfig : (call : Call) → IsManaged call → KeepsConfig call
IsManaged-KeepsConfig (updates c) g = g
IsManaged-KeepsConfig call g = tt

IsManaged-AdmitsAll :
    (c : RemoteAccessConfig) (m : Manager) (cs : List Call)
    → m.config ≡ c
    → All IsManaged cs
    → AdmitsAll
        (IsCapped (max_duration c))
        (λ d. d ≤ℤ max_duration c)
        NoRequest
        (IsCapped-stable (max_duration c))
        m
        cs
IsManaged-AdmitsAll c m [] e g = tt
IsManaged-AdmitsAll c m (call ∷ cs) e g = (
  IsManaged-Admits c m call e g.0,
  IsManaged-AdmitsAll c (step m call) cs (step-config m call (IsManaged-KeepsConfig call g.0) ∙ e)
      g.1,
)

BackedBy-end :
    (cap : ℤ) (type : PrivilegeType) (p : ActivePrivilege) (rs : List PrivilegeRequest)
    → BackedBy type p rs
    → ShortRequests cap rs
    → p.expires_at ≤ℤ p.granted_at +ℤ cap
BackedBy-end cap type p [] b h = absurd b
BackedBy-end cap type p (r ∷ rs) (inl backs) h =
    rw backs.end (omega (arith, h.0, +ℤ_parts p.granted_at r.duration, +ℤ_parts p.granted_at cap))
BackedBy-end cap type p (r ∷ rs) (inr b) h = BackedBy-end cap type p rs b h.1

-- From a new manager, after any calls of the manager's methods, and direct session calls other than
-- privilege requests, under one configuration: every active privilege of every session was approved
-- for a request of that session, and it expires at most the configured maximum duration (24 hours
-- if none is configured) after it was granted.
pub privileges_capped :
    (c : RemoteAccessConfig) (cs : List Call)
    → All IsManaged cs
    → (id : String) (s : Session) → lookup id (run (new_manager c) cs).sessions ≡ some s
    → (type : PrivilegeType) (p : ActivePrivilege) → lookup type s.active_privileges ≡ some p
    → BackedBy type p s.privileges × (p.expires_at ≤ℤ p.granted_at +ℤ max_duration c)
privileges_capped c cs g id s found type p active =
    let v =
      run_new-Every (IsCapped (max_duration c)) (λ d. d ≤ℤ max_duration c) NoRequest
        (IsCapped-stable (max_duration c)) c cs
        (IsManaged-AdmitsAll c (new_manager c) cs (unfold new_manager in refl) g) id s found in
    let b = v.backing.backed type p active in
    (b, BackedBy-end (max_duration c) type p s.privileges b v.short)
