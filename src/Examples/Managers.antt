-- ===== src/Examples/Managers.antt =====
-- A manager with a limit of one session, and the theorems on managers at it.
use onli_desk_full.Common.{
  ◌≡◌, ◌⊎◌, refl, ◌+◌, ℤ, pos, ◌≤ℤ◌, true, none, some, List, [], ◌∷◌, arith, if◌then◌else◌, length,
}
use onli_desk_full.Common.Int.{◌+ℤ◌, ◌-ℤ◌, sat64}
use onli_desk_full.Common.Map.{IsMap, lookup, insert}
use onli_desk_full.RemoteAccess.Config.{RemoteAccessConfig}
use onli_desk_full.RemoteAccess.Config.Defaults.{default_config}
use onli_desk_full.RemoteAccess.Session.{
  Session, Conn, ClientInfo, ActivePrivilege, max_sessions_reached, is_expired, new_session,
  decide_request, approve_privilege, request_privilege,
}
use onli_desk_full.RemoteAccess.Session.Backing.{BackedBy}
use onli_desk_full.RemoteAccess.Manager.{
  Manager, new_manager, create_session, created, refused, manager_request_privilege,
  manager_approve_privilege, max_duration, clamp_duration, opened, session_settings,
}
use onli_desk_full.RemoteAccess.Manager.Upkeep.{cleanup_expired_sessions}
use onli_desk_full.RemoteAccess.Manager.Calls.{
  Call, creates, requests, approves, terminates, run, step,
}
use onli_desk_full.RemoteAccess.Manager.Counts.{count}
use onli_desk_full.RemoteAccess.Manager.Capacity.{
  create_session_cases, sessions_bounded, full_forever,
}
use onli_desk_full.RemoteAccess.Manager.Durations.{privileges_capped}
use onli_desk_full.RemoteAccess.Manager.Cleanup.{ended, lookup-cleanup_expired_sessions}

abbrev small : RemoteAccessConfig
small = record default_config { max_concurrent_sessions = pos 1 }

abbrev client : ClientInfo
client = record {
  hostname = "pc";
  operating_system = "linux";
  ip_address = "10.0.0.1";
  user_agent = "agent";
  screen_resolution = "";
  current_user = "";
  system_info = [];
}

abbrev socket : Conn
socket = record { handle = 1; remote_addr = "10.0.0.1:5000" }

abbrev opening : List Call
opening = creates "s" (pos 0) "client" "technician" (some client) ∷ []

abbrev full : Manager
full = run (new_manager small) opening

abbrev first : Session
first = opened "s" (pos 0) "client" "technician" (some client) (new_manager small)

-- An admin privilege asked for a thousand hours.
abbrev escalating : List Call
escalating =
    creates "s" (pos 0) "client" "technician" (some client)
    ∷ requests "r" (pos 1) "s" "admin" "update" (pos 3_600_000_000_000_000)
    ∷ approves (pos 2) "s" "r" "boss"
    ∷ []

abbrev privilege : ActivePrivilege
privilege = record {
  type = "admin";
  granted_at = pos 2;
  expires_at = pos 7_200_000_000_002;
  granted_by = "boss";
}

new_free : lookup "s" (new_manager small).sessions ≡ none
unfolding new_manager lookup
new_free = refl

full_missing : lookup "t" full.sessions ≡ none
unfolding run step create_session new_manager lookup insert default_config
full_missing = refl

create_session_cases_example :
    let m = new_manager small in
    let r = create_session "s" (pos 0) "client" "technician" (some client) m in
    ((m.config.max_concurrent_sessions ≤ℤ pos (length m.sessions))
      × (r ≡ (m, refused max_sessions_reached)))
    ⊎ ((s : Session) × (pos (length m.sessions + 1) ≤ℤ m.config.max_concurrent_sessions)
        × (lookup "s" r.0.sessions ≡ some s)
        × (length r.0.sessions ≡ length m.sessions + 1)
        × (r.1 ≡ created s))
create_session_cases_example =
    create_session_cases "s" (pos 0) "client" "technician" (some client) (new_manager small)
      new_free

sessions_bounded_example :
    pos (count (run (new_manager small) opening)) ≤ℤ small.max_concurrent_sessions
sessions_bounded_example = sessions_bounded small opening (ground arith) (tt, tt)

full_count : full.config.max_concurrent_sessions ≤ℤ pos (count full)
unfolding run step create_session new_manager insert default_config
full_count = ground arith

full_forever_example :
    create_session "t" (pos 9) "client" "technician" none (run full (terminates (pos 3) "s" ∷ []))
    ≡ (run full (terminates (pos 3) "s" ∷ []), refused max_sessions_reached)
full_forever_example =
    full_forever full (terminates (pos 3) "s" ∷ []) full_count (tt, tt) "t" (pos 9) "client"
      "technician" none

abbrev escalated : Session
escalated = elim (lookup "s" (run (new_manager small) escalating).sessions) [
  | none ↦ first
  | some s ↦ s
]

escalation_found : lookup "s" (run (new_manager small) escalating).sessions ≡ some escalated
unfolding run step create_session new_manager lookup insert default_config manager_request_privilege
    manager_approve_privilege request_privilege approve_privilege opened
escalation_found = refl

escalated_privilege : lookup "admin" escalated.active_privileges ≡ some privilege
unfolding run step create_session new_manager lookup insert default_config manager_request_privilege
    manager_approve_privilege request_privilege approve_privilege decide_request opened new_session
    clamp_duration max_duration ◌+ℤ◌
escalated_privilege = refl

privileges_capped_example :
    BackedBy "admin" privilege escalated.privileges
    × (privilege.expires_at ≤ℤ privilege.granted_at +ℤ max_duration small)
privileges_capped_example =
    privileges_capped small escalating (tt, (tt, (tt, tt))) "s" escalated escalation_found "admin"
      privilege escalated_privilege

full_IsMap : IsMap full.sessions
unfolding run step create_session new_manager lookup insert default_config
full_IsMap = (refl, tt)

-- Five hours after its start, the session has expired.
abbrev late : ℤ
late = pos 18_000_000_000_000

first_expired : is_expired late first ≡ true
unfolding is_expired opened new_session session_settings new_manager default_config sat64 ◌-ℤ◌
first_expired = refl

lookup-cleanup_expired_sessions_example :
    lookup "s" (cleanup_expired_sessions late full).sessions ≡ elim (lookup "s" full.sessions) [
      | none ↦ none
      | some s ↦ if is_expired late s then some (ended late s) else some s
    ]
lookup-cleanup_expired_sessions_example = lookup-cleanup_expired_sessions late full full_IsMap "s"
