-- ===== src/RemoteAccess/Session/Decisions.antt =====
-- session.go: approving and denying a privilege request, once and again.
use onli_desk_full.Common.{
  ◌+ℤ◌, ℤ, String, ◌==◌, ◌≡◌, ◌≢◌, refl, some, List, [], ◌∷◌, arith, eq_iff, if◌then◌else◌,
  Option-cases, inl, inr,
}
use onli_desk_full.Common.Map.{lookup, lookup-insert, insert}
use onli_desk_full.RemoteAccess.Session.{
  Session, PrivilegeRequest, PrivilegeType, RequestStatus, ok, err, request_not_pending,
  decide_request, approve, deny, grant, approve_privilege, Result-cases, deny_privilege,
  request_privilege, update_activity, revoke_privilege, has_active_privilege, terminate,
  increment_command, add_file_transfer, increment_screenshot,
}
use onli_desk_full.RemoteAccess.Session.Calls.{
  Call, touches, requests, approves, denies, revokes, asks, terminates, commands, transfers,
  screenshots, step, run, after,
}
use onli_desk_full.RemoteAccess.Session.Requests.{
  find_request, change_request, decide_request-verdict, find_request-change_request,
  find_request-append,
}

approve_privilege-eq_of_pending :
    (now : ℤ) (k by : String) (s : Session) (r : PrivilegeRequest)
    → find_request k s.privileges ≡ some r
    → r.status ≡ RequestStatus.pending
    → approve_privilege now k by s
      ≡ ok (record s {
        privileges = change_request k (approve now by) s.privileges;
        active_privileges = insert r.type (grant now by r) s.active_privileges;
      })
unfolding approve_privilege
approve_privilege-eq_of_pending now k by s r e p =
    ground (arith, decide_request-verdict k (approve now by) s.privileges)

-- A pending request can be approved: the call returns no error; the request has the status approved,
-- its approver and the time, and is otherwise as it was; its privilege, with its approver, is active
-- from now until the requested duration later; and no other request or privilege changes.
pub approve_privilege-grants :
    (now : ℤ) (k by : String) (s : Session) (r : PrivilegeRequest)
    → find_request k s.privileges ≡ some r
    → r.status ≡ RequestStatus.pending
    → (t : Session) × (approve_privilege now k by s ≡ ok t)
      × ((j : String)
          → find_request j t.privileges ≡ (
              if k == j
              then some (record r {
                status = RequestStatus.approved;
                approved_by = by;
                approved_at = some now;
              })
              else find_request j s.privileges))
      × ((type : PrivilegeType)
          → lookup type t.active_privileges ≡ (
              if r.type == type
              then some (record {
                type = r.type;
                granted_at = now;
                expires_at = now +ℤ r.duration;
                granted_by = by;
              })
              else lookup type s.active_privileges))
approve_privilege-grants now k by s r e p = (
  record s {
    privileges = change_request k (approve now by) s.privileges;
    active_privileges = insert r.type (grant now by r) s.active_privileges;
  },
  approve_privilege-eq_of_pending now k by s r e p,
  λ j. find_request-change_request k j (approve now by) s.privileges (λ x. refl) r e,
  λ type. lookup-insert r.type type (grant now by r) s.active_privileges,
)

-- Decided requests of a session.
abbrev Holds : String → PrivilegeRequest → Session → Type 0
Holds k r s = find_request k s.privileges ≡ some r

decide_request-Holds :
    (k j : String) (f : PrivilegeRequest → PrivilegeRequest)
    → ((x : PrivilegeRequest) → (f x).id ≡ x.id)
    → (rs : List PrivilegeRequest) (r x : PrivilegeRequest) (rs' : List PrivilegeRequest)
    → find_request k rs ≡ some r
    → r.status ≢ RequestStatus.pending
    → decide_request j f rs ≡ ok (x, rs')
    → find_request k rs' ≡ some r
decide_request-Holds k j f same rs r x rs' e decided d = elim (Option-cases (find_request j rs)) [
  | inl missing ↦ absurd (ground (arith, decide_request-verdict j f rs))
  | inr (y, found) ↦ ground (
    arith,
    decide_request-verdict j f rs,
    find_request-change_request j k f rs same y found,
    eq_iff j k,
  )
]

approves-Holds :
    (now : ℤ) (k j by : String) (r : PrivilegeRequest) (s : Session)
    → r.status ≢ RequestStatus.pending
    → Holds k r s
    → Holds k r (after s (approve_privilege now j by s))
unfolding approve_privilege
approves-Holds now k j by r s d h =
    elim (Result-cases (decide_request j (approve now by) s.privileges)) [
      | inl (e, p) ↦ rw (p, approve_privilege) h
      | inr ((x, rs), p) ↦
          rw (p, approve_privilege)
            (decide_request-Holds k j (approve now by) (λ y. refl) s.privileges r x rs h d p)
    ]

denies-Holds :
    (k j by : String) (r : PrivilegeRequest) (s : Session)
    → r.status ≢ RequestStatus.pending
    → Holds k r s
    → Holds k r (after s (deny_privilege j by s))
unfolding deny_privilege
denies-Holds k j by r s d h = elim (Result-cases (decide_request j (deny by) s.privileges)) [
  | inl (e, p) ↦ rw (p, deny_privilege) h
  | inr ((x, rs), p) ↦
      rw (p, deny_privilege)
        (decide_request-Holds k j (deny by) (λ y. refl) s.privileges r x rs h d p)
]

step-Holds :
    (k : String) (r : PrivilegeRequest)
    → r.status ≢ RequestStatus.pending
    → (s : Session) (c : Call) → Holds k r s
    → Holds k r (step s c)
unfolding step
step-Holds k r d s (touches now) h = unfold update_activity in h
step-Holds k r d s (requests fresh now type text duration) h =
    unfold request_privilege in find_request-append k s.privileges _ r h
step-Holds k r d s (approves now j by) h = approves-Holds now k j by r s d h
step-Holds k r d s (denies j by) h = denies-Holds k j by r s d h
step-Holds k r d s (revokes type) h = unfold revoke_privilege in ground arith
step-Holds k r d s (asks now type) h = unfold has_active_privilege in ground arith
step-Holds k r d s (terminates now) h = unfold terminate in h
step-Holds k r d s (commands now text) h = unfold increment_command in h
step-Holds k r d s (transfers now bytes) h = unfold add_file_transfer in h
step-Holds k r d s (screenshots now) h = unfold increment_screenshot in h

run-Holds :
    (k : String) (r : PrivilegeRequest)
    → r.status ≢ RequestStatus.pending
    → (s : Session) (cs : List Call) → Holds k r s
    → Holds k r (run s cs)
unfolding run
run-Holds k r d s [] h = h
run-Holds k r d s (c ∷ cs) h = run-Holds k r d (step s c) cs (step-Holds k r d s c h)

refused :
    (k : String) (r : PrivilegeRequest) (s : Session)
    → r.status ≢ RequestStatus.pending
    → Holds k r s
    → ((now : ℤ) (by : String) → approve_privilege now k by s ≡ err request_not_pending)
      × ((by : String) → deny_privilege k by s ≡ err request_not_pending)
unfolding approve_privilege deny_privilege
refused k r s d h = (
  λ now by. ground (arith, decide_request-verdict k (approve now by) s.privileges),
  λ by. ground (arith, decide_request-verdict k (deny by) s.privileges),
)

-- A decision is final: a request that is approved or denied stays as it is through any sequence of
-- calls of the session's methods, and every later approval or denial of it is refused as not
-- pending.
pub decision_final :
    (k : String) (r : PrivilegeRequest) (s : Session) (cs : List Call)
    → find_request k s.privileges ≡ some r
    → r.status ≢ RequestStatus.pending
    → (find_request k (run s cs).privileges ≡ some r)
      × ((now : ℤ) (by : String) → approve_privilege now k by (run s cs) ≡ err request_not_pending)
      × ((by : String) → deny_privilege k by (run s cs) ≡ err request_not_pending)
decision_final k r s cs h d =
    let kept = run-Holds k r d s cs h in
    let (approvals, denials) = refused k r (run s cs) d kept in (kept, approvals, denials)
