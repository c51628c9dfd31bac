-- ===== src/RemoteAccess/Session.antt =====
-- src/server/internal/remoteaccess/session.go: a remote access session and its methods.
-- Instants and durations are nanoseconds. What the code takes from its surroundings is an argument:
-- `now` for `time.Now()`, `fresh` for `uuid.New().String()`. A method that writes the session
-- returns the new one; `Terminate` also returns the connections that it closes. Each method runs
-- under the session's mutex, so it is one step.
mod Types
pub mod Calls
pub mod Requests
pub mod Decisions
pub mod Backing
pub mod Checks
unfoldable pub use Types.*
use onli_desk_full.Common.{
  ◌≡◌, refl, ◌⊎◌, inl, inr, ℕ, ℤ, pos, ◌+ℤ◌, ◌-ℤ◌, ltb_ℤ, wrap64, sat64, String, ◌==◌, Bool, true,
  false, ◌||◌, not, Option, none, some, is_some, List, [], ◌∷◌, ◌++◌, if◌then◌else◌,
}
use onli_desk_full.Common.Map.{Map, lookup, insert, delete}

unfoldable pub update_activity : ℤ → Session → Session
update_activity now s = record s { last_activity = now }

-- The status test of `IsExpired`.
abbrev pub is_over : SessionStatus → Bool
is_over terminated = true
is_over expired = true
is_over _ = false

unfoldable pub is_expired : ℤ → Session → Bool
is_expired now s =
    if is_over s.status
    then true
    else if ltb_ℤ s.settings.session_timeout (sub_time now s.start_time)
    then true
    else if ltb_ℤ s.settings.idle_timeout (sub_time now s.last_activity)
    then true
    else false

unfoldable pub request_privilege :
    String → ℤ → PrivilegeType → String → ℤ → Session → Session × String
request_privilege fresh now type justification duration s = (
  record s {
    privileges = s.privileges ++ request ∷ [];
    statistics = record stats { privilege_escalations = wrap64 (escalations +ℤ pos 1) };
  },
  fresh,
)
  where
    open s use {statistics as stats}
    open stats use {privilege_escalations as escalations}

    request : PrivilegeRequest
    request = record {
      id = fresh;
      type = type;
      justification = justification;
      duration = duration;
      requested_at = now;
      status = RequestStatus.pending;
      approved_by = "";
      approved_at = none;
    }

-- The loop of `ApprovePrivilege` and `DenyPrivilege`: the first request with the identifier, as it
-- was, and the requests with that one changed.
abbrev pub is_pending : RequestStatus → Bool
is_pending RequestStatus.pending = true
is_pending _ = false

abbrev pub cons_request :
    PrivilegeRequest
    → Result (PrivilegeRequest × List PrivilegeRequest)
    → Result (PrivilegeRequest × List PrivilegeRequest)
cons_request r (ok (found, rs)) = ok (found, r ∷ rs)
cons_request r (err e) = err e

unfoldable pub decide_request :
    String
    → (PrivilegeRequest → PrivilegeRequest)
    → List PrivilegeRequest
    → Result (PrivilegeRequest × List PrivilegeRequest)
decide_request request_id change [] = err request_not_found
decide_request request_id change (r ∷ rs) =
    let rest = decide_request request_id change rs in
    if r.id == request_id
    then if is_pending r.status then ok (r, change r ∷ rs) else err request_not_pending
    else cons_request r rest

abbrev pub approve : ℤ → String → PrivilegeRequest → PrivilegeRequest
approve now approved_by r = record r {
  status = approved;
  approved_by = approved_by;
  approved_at = some now;
}

abbrev pub deny : String → PrivilegeRequest → PrivilegeRequest
deny denied_by r = record r { status = denied; approved_by = denied_by }

-- `ExpiresAt` is `now.Add(request.Duration)`.
abbrev pub grant : ℤ → String → PrivilegeRequest → ActivePrivilege
grant now approved_by r = record {
  type = r.type;
  granted_at = now;
  expires_at = now +ℤ r.duration;
  granted_by = approved_by;
}

unfoldable pub approve_privilege : ℤ → String → String → Session → Result Session
unfolding decide_request
approve_privilege now request_id approved_by s =
    elim (decide_request request_id (approve now approved_by) s.privileges) [
      | err e ↦ err e
      | ok (r, rs) ↦ ok (record s {
        privileges = rs;
        active_privileges = insert r.type (grant now approved_by r) s.active_privileges;
      })
    ]

unfoldable pub deny_privilege : String → String → Session → Result Session
unfolding decide_request
deny_privilege request_id denied_by s =
    elim (decide_request request_id (deny denied_by) s.privileges) [
      | err e ↦ err e
      | ok (r, rs) ↦ ok (record s { privileges = rs })
    ]

unfoldable pub revoke_privilege : PrivilegeType → Session → Result Session
revoke_privilege type s = elim (lookup type s.active_privileges) [
  | none ↦ err privilege_not_active
  | some p ↦ ok (record s { active_privileges = delete type s.active_privileges })
]

-- An expired privilege is removed on the way.
unfoldable pub has_active_privilege : ℤ → PrivilegeType → Session → Session × Bool
has_active_privilege now type s = elim (lookup type s.active_privileges) [
  | none ↦ (s, false)
  | some p ↦
      if ltb_ℤ p.expires_at now
      then (record s { active_privileges = delete type s.active_privileges }, false)
      else (s, true)
]

abbrev pub conn_list : Option Conn → List Conn
conn_list none = []
conn_list (some c) = c ∷ []

-- `session.Terminate`: the session, and the connections closed.
unfoldable pub terminate : ℤ → Session → Session × List Conn
terminate now s = (
  record s {
    status = terminated;
    end_time = some now;
    statistics = record stats { duration = sub_time now s.start_time };
  },
  conn_list s.client_conn ++ conn_list s.portal_conn,
)
  where
    open s use {statistics as stats}

unfoldable pub get_duration : ℤ → Session → ℤ
get_duration now s = elim s.end_time [
  | some t ↦ sub_time t s.start_time
  | none ↦ sub_time now s.start_time
]

unfoldable pub increment_command : ℤ → String → Session → Session
increment_command now command s = record s {
  statistics = record stats {
    commands_executed = wrap64 (commands_executed +ℤ pos 1);
    last_command = command;
    last_command_time = some now;
  };
  last_activity = now;
}
  where
    open s use {statistics as stats}
    open stats use {commands_executed}

unfoldable pub add_file_transfer : ℤ → ℤ → Session → Session
add_file_transfer now bytes s = record s {
  statistics = record stats {
    files_transferred = wrap64 (files_transferred +ℤ pos 1);
    bytes_transferred = wrap64 (bytes_transferred +ℤ bytes);
  };
  last_activity = now;
}
  where
    open s use {statistics as stats}
    open stats use {files_transferred, bytes_transferred}

unfoldable pub increment_screenshot : ℤ → Session → Session
increment_screenshot now s = record s {
  statistics = record stats { screenshots_taken = wrap64 (screenshots_taken +ℤ pos 1) };
  last_activity = now;
}
  where
    open s use {statistics as stats}
    open stats use {screenshots_taken}
