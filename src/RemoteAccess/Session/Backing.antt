-- ===== src/RemoteAccess/Session/Backing.antt =====
-- session.go: active privileges and the requests behind them.
use onli_desk_full.Common.{
  ℤ, ◌+ℤ◌, String, ◌==◌, ◌≡◌, ◌⊎◌, refl, Option, some, List, [], ◌∷◌, ◌++◌, arith, eq_iff, inl, inr,
  Bool-cases, ltb_ℤ, Option-cases,
}
use onli_desk_full.Common.Map.{lookup, lookup-insert, lookup-delete, delete}
use onli_desk_full.RemoteAccess.Session.{
  Session, PrivilegeRequest, ActivePrivilege, ClientInfo, PrivilegeType, RequestStatus, ok,
  decide_request, approve, deny, grant, approve_privilege, Result-cases, new_session,
  deny_privilege, request_privilege, update_activity, revoke_privilege, has_active_privilege,
  terminate, increment_command, add_file_transfer, increment_screenshot,
}
use onli_desk_full.RemoteAccess.Session.Requests.{decide_request-cons}
use onli_desk_full.RemoteAccess.Session.Calls.{
  Call, touches, requests, approves, denies, revokes, asks, terminates, commands, transfers,
  screenshots, step, run, after,
}

-- The request was approved by the grantor at the time of the grant, for the privilege's type, and
-- the privilege lasts for the duration that was asked for.
pub record Backs (type : PrivilegeType) (p : ActivePrivilege) (r : PrivilegeRequest) : Type 0 where
  pub decided : r.status ≡ RequestStatus.approved
  pub same_type : r.type ≡ type
  pub label : p.type ≡ type
  pub grantor : r.approved_by ≡ p.granted_by
  pub time : r.approved_at ≡ some p.granted_at
  pub end : p.expires_at ≡ p.granted_at +ℤ r.duration

abbrev pub BackedBy : PrivilegeType → ActivePrivilege → List PrivilegeRequest → Type 0
BackedBy type p [] = ⊥
BackedBy type p (r ∷ rs) = Backs type p r ⊎ BackedBy type p rs

pub record IsBacked (s : Session) : Type 0 where
  pub backed :
      (type : PrivilegeType) (p : ActivePrivilege)
      → lookup type s.active_privileges ≡ some p
      → BackedBy type p s.privileges

BackedBy-append :
    (type : PrivilegeType) (p : ActivePrivilege) (rs : List PrivilegeRequest) (x : PrivilegeRequest)
    → BackedBy type p rs
    → BackedBy type p (rs ++ x ∷ [])
BackedBy-append type p [] x b = absurd b
BackedBy-append type p (r ∷ rs) x (inl b) = inl b
BackedBy-append type p (r ∷ rs) x (inr b) = inr (BackedBy-append type p rs x b)

-- A decision changes a pending request, which backs nothing.
BackedBy-decide_request :
    (type : PrivilegeType) (p : ActivePrivilege) (k : String)
    (f : PrivilegeRequest → PrivilegeRequest) (rs : List PrivilegeRequest) (x : PrivilegeRequest)
    (rs' : List PrivilegeRequest)
    → decide_request k f rs ≡ ok (x, rs')
    → BackedBy type p rs
    → BackedBy type p rs'
BackedBy-decide_request type p k f [] x rs' e b = absurd b
BackedBy-decide_request type p k f (r ∷ rs) x rs' e b =
    elim (decide_request-cons k f r rs x rs' e) [
      | inl (pending, _, q) ↦
          rw q (elim b [ inl backs ↦ absurd (ground (arith, backs.decided)) | inr rest ↦ inr rest ])
      | inr (ys, d, q) ↦ rw q (elim b [
        | inl backs ↦ inl backs
        | inr rest ↦ inr (BackedBy-decide_request type p k f rs x ys d rest)
      ])
    ]

-- An approved request backs the privilege granted.
BackedBy-grant :
    (now : ℤ) (k by : String) (rs : List PrivilegeRequest) (x : PrivilegeRequest)
    (rs' : List PrivilegeRequest)
    → decide_request k (approve now by) rs ≡ ok (x, rs')
    → BackedBy x.type (grant now by x) rs'
BackedBy-grant now k by [] x rs' e = absurd (unfold decide_request in ground arith)
BackedBy-grant now k by (r ∷ rs) x rs' e =
    elim (decide_request-cons k (approve now by) r rs x rs' e) [
      | inl (_, same, q) ↦
          rw (q, same)
            (inl (record {
              decided = refl;
              same_type = refl;
              label = refl;
              grantor = refl;
              time = refl;
              end = refl;
            }))
      | inr (ys, d, q) ↦ rw q (inr (BackedBy-grant now k by rs x ys d))
    ]

approves-IsBacked :
    (now : ℤ) (k by : String) (s : Session)
    → IsBacked s
    → IsBacked (after s (approve_privilege now k by s))
unfolding approve_privilege
approves-IsBacked now k by s v =
    elim (Result-cases (decide_request k (approve now by) s.privileges)) [
      | inl (e, q) ↦ rw (q, approve_privilege) v
      | inr ((x, rs), q) ↦
          rw (q, approve_privilege)
            (record {
              backed = λ type p h. elim (Bool-cases (x.type == type)) [
                | inl same ↦
                    let granted = BackedBy-grant now k by s.privileges x rs q in
                    let here : x.type ≡ type = (eq_iff x.type type).0 same in
                    let it : grant now by x ≡ p =
                      ground
                        (arith, lookup-insert x.type type (grant now by x) s.active_privileges) in
                    rw here at (rw it at granted)
                | inr other ↦
                    BackedBy-decide_request type p k (approve now by) s.privileges x rs q (
                      v.backed type p (
                        ground
                          (arith, lookup-insert x.type type (grant now by x) s.active_privileges)))
              ];
            })
    ]

denies-IsBacked :
    (k by : String) (s : Session) → IsBacked s → IsBacked (after s (deny_privilege k by s))
unfolding deny_privilege
denies-IsBacked k by s v = elim (Result-cases (decide_request k (deny by) s.privileges)) [
  | inl (e, q) ↦ rw (q, deny_privilege) v
  | inr ((x, rs), q) ↦
      rw (q, deny_privilege)
        (record {
          backed = λ type p h.
              BackedBy-decide_request type p k (deny by) s.privileges x rs q (v.backed type p h);
        })
]

delete-IsBacked :
    (gone : PrivilegeType) (s : Session)
    → IsBacked s
    → IsBacked (record s { active_privileges = delete gone s.active_privileges })
delete-IsBacked gone s v = record {
  backed =
      λ type p h. v.backed type p (ground (arith, lookup-delete gone type s.active_privileges));
}

revokes-IsBacked :
    (gone : PrivilegeType) (s : Session) → IsBacked s → IsBacked (after s (revoke_privilege gone s))
unfolding revoke_privilege
revokes-IsBacked gone s v = elim (Option-cases (lookup gone s.active_privileges)) [
  | inl q ↦ rw (q, revoke_privilege) v
  | inr (p, q) ↦ rw (q, revoke_privilege) (delete-IsBacked gone s v)
]

asks-IsBacked :
    (now : ℤ) (type : PrivilegeType) (s : Session)
    → IsBacked s
    → IsBacked (has_active_privilege now type s).0
unfolding has_active_privilege
asks-IsBacked now type s v = elim (Option-cases (lookup type s.active_privileges)) [
  | inl q ↦ rw (q, has_active_privilege) v
  | inr (p, q) ↦ elim (Bool-cases (ltb_ℤ p.expires_at now)) [
    | inl late ↦ rw (q, has_active_privilege, late) (delete-IsBacked type s v)
    | inr still ↦ rw (q, has_active_privilege, still) v
  ]
]

pub step-IsBacked : (s : Session) (c : Call) → IsBacked s → IsBacked (step s c)
unfolding step
step-IsBacked s (touches now) v = unfold update_activity in record { backed = v.backed }
step-IsBacked s (requests fresh now type text duration) v =
    unfold request_privilege in
    record { backed = λ t p h. BackedBy-append t p s.privileges _ (v.backed t p h) }
step-IsBacked s (approves now k by) v = approves-IsBacked now k by s v
step-IsBacked s (denies k by) v = denies-IsBacked k by s v
step-IsBacked s (revokes type) v = revokes-IsBacked type s v
step-IsBacked s (asks now type) v = asks-IsBacked now type s v
step-IsBacked s (terminates now) v = unfold terminate in record { backed = v.backed }
step-IsBacked s (commands now text) v = unfold increment_command in record { backed = v.backed }
step-IsBacked s (transfers now bytes) v = unfold add_file_transfer in record { backed = v.backed }
step-IsBacked s (screenshots now) v = unfold increment_screenshot in record { backed = v.backed }

run-IsBacked : (s : Session) (cs : List Call) → IsBacked s → IsBacked (run s cs)
unfolding run
run-IsBacked s [] v = v
run-IsBacked s (c ∷ cs) v = run-IsBacked (step s c) cs (step-IsBacked s c v)

pub run_new-IsBacked :
    (fresh : String) (now : ℤ) (client technician : String) (info : Option ClientInfo)
    (cs : List Call)
    → IsBacked (run (new_session fresh now client technician info) cs)
run_new-IsBacked fresh now client technician info cs =
    run-IsBacked _ cs
      (unfold new_session lookup in record { backed = λ type p h. absurd (ground arith) })

-- After any sequence of calls on a new session, an active privilege has a request of the session for
-- its type that was approved by the privilege's grantor at the time of the grant, and the privilege
-- expires after the duration which that request asked for.
pub active_was_approved :
    (fresh : String) (now : ℤ) (client technician : String) (info : Option ClientInfo)
    (cs : List Call) (type : PrivilegeType) (p : ActivePrivilege)
    → let s = run (new_session fresh now client technician info) cs in
      lookup type s.active_privileges ≡ some p → BackedBy type p s.privileges
active_was_approved fresh now client technician info cs =
    (run_new-IsBacked fresh now client technician info cs).backed
