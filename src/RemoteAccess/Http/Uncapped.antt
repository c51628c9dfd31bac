-- ===== src/RemoteAccess/Http/Uncapped.antt =====
-- http_handlers.go: the duration of a privilege that is asked for over HTTP, and the creation of
-- sessions over HTTP.
use onli_desk_full.Common.{
  ◌≡◌, ◌≢◌, refl, ap, ◌∙◌, ℤ, ◌+ℤ◌, String, Option, none, some, List, [], ◌∷◌, ◌++◌, arith, eq_iff,
  eq_refl,
}
use onli_desk_full.Common.Map.{lookup, lookup-insert}
use onli_desk_full.RemoteAccess.Session.{
  Session, PrivilegeRequest, RequestStatus, ActivePrivilege, ok, request_privilege,
  approve_privilege, grant,
}
use onli_desk_full.RemoteAccess.Session.Requests.{find_request}
use onli_desk_full.RemoteAccess.Session.Decisions.{approve_privilege-grants}
use onli_desk_full.RemoteAccess.Manager.{Manager, create_session, put_session, get_session}
use onli_desk_full.RemoteAccess.Http.Replies.{
  PrivilegeBody, ApproveBody, CreateBody, Body, reply, privilege_approved,
}
use onli_desk_full.RemoteAccess.Http.Privileges.{
  duration_of, handle_request_privilege, handle_approve_privilege,
}
use onli_desk_full.RemoteAccess.Http.Sessions.{reply_creation, handle_create_session}

lookup-put_session :
    (id : String) (s : Session) (m : Manager) → lookup id (put_session id s m).sessions ≡ some s
lookup-put_session id s m = lookup-insert id id s m.sessions ∙ rw (eq_refl id) refl

-- An approval over HTTP that succeeds on the session.
handle_approve_privilege-ok :
    (later : ℤ) (id k : String) (a : ApproveBody) (m : Manager) (s t : Session)
    → lookup id m.sessions ≡ some s
    → approve_privilege later k a.approved_by s ≡ ok t
    → handle_approve_privilege later id k (some a) m
      ≡ (put_session id t m, reply 200 privilege_approved)
unfolding handle_approve_privilege get_session
handle_approve_privilege-ok later id k a m s t f e = rw (f, handle_approve_privilege) (rw e refl)

find_request-new :
    (k : String) (rs : List PrivilegeRequest) (r : PrivilegeRequest)
    → find_request k rs ≡ none
    → r.id ≡ k
    → find_request k (rs ++ r ∷ []) ≡ some r
unfolding find_request
find_request-new k [] r h e = ground (arith, eq_iff r.id k)
find_request-new k (q ∷ rs) r h e = ground (arith, find_request-new k rs r)

module _ (parse_duration : String → Option ℤ) (k : String) (now later : ℤ) (id : String)
    (b : PrivilegeBody) (a : ApproveBody) (d : ℤ) (m : Manager) (s : Session) where
  asked : Session
  asked = (request_privilege k now b.privilege_type b.justification d s).0

  handle_request_privilege-asked :
      lookup id m.sessions ≡ some s
      → duration_of parse_duration b.duration ≡ some d
      → (handle_request_privilege parse_duration k now id (some b) m).0 ≡ put_session id asked m
  unfolding handle_request_privilege get_session asked
  handle_request_privilege-asked f e = rw (f, handle_request_privilege) (rw e refl)

  -- A privilege that is asked for over HTTP for a session of the map, under a new identifier, and
  -- then approved over HTTP, is active for the duration of the request, however long that is and
  -- whatever the configuration.
  pub http_privilege_uncapped :
      lookup id m.sessions ≡ some s
      → find_request k s.privileges ≡ none
      → duration_of parse_duration b.duration ≡ some d
      → let m' = (handle_request_privilege parse_duration k now id (some b) m).0 in
        let r = handle_approve_privilege later id k (some a) m' in
        (t : Session) × (lookup id r.0.sessions ≡ some t)
        × (p : ActivePrivilege) × (lookup b.privilege_type t.active_privileges ≡ some p)
        × (p.expires_at ≡ later +ℤ d)
        × (r.1 ≡ reply 200 privilege_approved)
  unfolding request_privilege asked
  http_privilege_uncapped f n e =
      let r : PrivilegeRequest = record {
        id = k;
        type = b.privilege_type;
        justification = b.justification;
        duration = d;
        requested_at = now;
        status = RequestStatus.pending;
        approved_by = "";
        approved_at = none;
      } in
      let (t, done, _, granted) =
        approve_privilege-grants later k a.approved_by asked r
          (find_request-new k s.privileges r n refl) refl in
      let m' : Manager = put_session id asked m in
      let q =
        ap (handle_approve_privilege later id k (some a)) (handle_request_privilege-asked f e)
        ∙ handle_approve_privilege-ok later id k a m' asked t (lookup-put_session id asked m)
            done in
      (
        t,
        ap (λ x. lookup id x.0.sessions) q ∙ lookup-put_session id t m',
        grant later a.approved_by r,
        granted b.privilege_type ∙ rw (eq_refl b.privilege_type) refl,
        refl,
        ap (λ x. x.1) q,
      )

reply_creation-none :
    (fresh : String) (now : ℤ) (client portal : String) (b : CreateBody) (m : Manager) (body : Body)
    → (reply_creation b (create_session fresh now client portal none m)).1 ≢ reply 201 body
unfolding create_session reply_creation
reply_creation-none fresh now client portal b m body h = ground arith

-- No creation over HTTP is answered with a session.
pub http_creation_fails :
    (fresh : String) (now : ℤ) (b : Option CreateBody) (m : Manager) (body : Body)
    → (handle_create_session fresh now b m).1 ≢ reply 201 body
unfolding handle_create_session
http_creation_fails fresh now none m body h = ground arith
http_creation_fails fresh now (some b) m body h =
    ground (arith, reply_creation-none fresh now b.client_id b.technician_id b m body)
