-- ===== src/Examples/Sessions.antt =====
-- A session whose technician asks for a privilege, which is approved, and the theorems on sessions
-- at it.
use onli_desk_full.Common.Int.{◌+ℤ◌}
use onli_desk_full.Common.{
  ◌≡◌, ◌≢◌, refl, ℤ, pos, String, ◌==◌, none, some, List, [], ◌∷◌, arith, if◌then◌else◌,
}
use onli_desk_full.Common.Int.{◌+ℤ◌}
use onli_desk_full.Common.Map.{lookup, insert}
use onli_desk_full.RemoteAccess.Session.{
  Session, RequestStatus, PrivilegeRequest, ActivePrivilege, new_session, default_session_settings,
  request_privilege, approve_privilege, approve, deny_privilege, has_active_privilege, ok, err,
  request_not_pending, decide_request,
}
use onli_desk_full.RemoteAccess.Session.Calls.{Call, requests, approves, terminates, run, step}
use onli_desk_full.RemoteAccess.Session.Requests.{find_request}
use onli_desk_full.RemoteAccess.Session.Decisions.{approve_privilege-grants, decision_final}
use onli_desk_full.RemoteAccess.Session.Backing.{BackedBy, active_was_approved}
use onli_desk_full.RemoteAccess.Session.Checks.{InRange}

abbrev first : Session
first = new_session "s" (pos 0) "client" "technician" none

abbrev asked : List Call
asked = requests "r" (pos 1) "admin" "update the driver" (pos 10) ∷ []

abbrev granted : List Call
granted =
    requests "r" (pos 1) "admin" "update the driver" (pos 10) ∷ approves (pos 2) "r" "boss" ∷ []

abbrev request : PrivilegeRequest
request = record {
  id = "r";
  type = "admin";
  justification = "update the driver";
  duration = pos 10;
  requested_at = pos 1;
  status = RequestStatus.pending;
  approved_by = "";
  approved_at = none;
}

abbrev privilege : ActivePrivilege
privilege = record { type = "admin"; granted_at = pos 2; expires_at = pos 12; granted_by = "boss" }

request_found : find_request "r" (run first asked).privileges ≡ some request
unfolding run step request_privilege new_session find_request
request_found = refl

privilege_found : lookup "admin" (run first granted).active_privileges ≡ some privilege
unfolding run step request_privilege approve_privilege decide_request new_session lookup insert ◌+ℤ◌
privilege_found = refl

decision_found :
    find_request "r" (run first granted).privileges ≡ some (approve (pos 2) "boss" request)
unfolding run step request_privilege approve_privilege decide_request new_session find_request
decision_found = refl

active_was_approved_example : BackedBy "admin" privilege (run first granted).privileges
active_was_approved_example =
    active_was_approved "s" (pos 0) "client" "technician" none granted "admin" privilege
      privilege_found

approve_privilege-grants_example :
    (t : Session) × (approve_privilege (pos 2) "r" "boss" (run first asked) ≡ ok t)
    × ((j : String)
        → find_request j t.privileges ≡ (
            if "r" == j
            then some (record request {
              status = RequestStatus.approved;
              approved_by = "boss";
              approved_at = some (pos 2);
            })
            else find_request j (run first asked).privileges))
    × ((type : String)
        → lookup type t.active_privileges ≡ (
            if "admin" == type
            then some (record {
              type = "admin";
              granted_at = pos 2;
              expires_at = pos 12;
              granted_by = "boss";
            })
            else lookup type (run first asked).active_privileges))
unfolding ◌+ℤ◌
approve_privilege-grants_example =
    approve_privilege-grants (pos 2) "r" "boss" (run first asked) request request_found refl

approved_not_pending : (approve (pos 2) "boss" request).status ≢ RequestStatus.pending
approved_not_pending e = ground arith

decision_final_example :
    (find_request "r" (run (run first granted) (terminates (pos 5) ∷ [])).privileges
      ≡ some (approve (pos 2) "boss" request))
    × ((now : ℤ) (by : String)
        → approve_privilege now "r" by (run (run first granted) (terminates (pos 5) ∷ []))
          ≡ err request_not_pending)
    × ((by : String)
        → deny_privilege "r" by (run (run first granted) (terminates (pos 5) ∷ []))
          ≡ err request_not_pending)
decision_final_example =
    decision_final "r" (approve (pos 2) "boss" request) (run first granted)
      (terminates (pos 5) ∷ []) decision_found approved_not_pending

default_InRange : InRange first.settings
unfolding new_session default_session_settings
default_InRange = record {
  session_low = ground arith;
  session_high = ground arith;
  idle_low = ground arith;
  idle_high = ground arith;
}

abbrev later : Session
later = (has_active_privilege (pos 13) "admin" (run first granted)).0
