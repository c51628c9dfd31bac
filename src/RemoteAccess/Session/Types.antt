-- ===== src/RemoteAccess/Session/Types.antt =====
-- session.go: the types of a session, and a new one.
use onli_desk_full.Common.{
  ◌≡◌, refl, ◌⊎◌, inl, inr, ℕ, ℤ, pos, ◌-ℤ◌, sat64, String, Bool, true, false, Option, none, List,
  [],
}
use onli_desk_full.Common.Map.{Map}

pub data SessionStatus : Type 0 where
  pending active disconnected terminated expired : SessionStatus

-- A WebSocket connection, by its identity and its remote address.
pub record Conn : Type 0 where
  pub handle : ℕ
  pub remote_addr : String

pub record ClientInfo : Type 0 where
  pub hostname : String
  pub operating_system : String
  pub ip_address : String
  pub user_agent : String
  pub screen_resolution : String
  pub current_user : String
  pub system_info : Map String

-- The strings that `PrivilegeRequest.Status` holds.
pub data RequestStatus : Type 0 where
  pending approved denied : RequestStatus

-- `PrivilegeType` is a string in the source, and so it is here.
abbrev pub PrivilegeType : Type 0
PrivilegeType = String

pub record PrivilegeRequest : Type 0 where
  pub id : String
  pub type : PrivilegeType
  pub justification : String
  pub duration : ℤ
  pub requested_at : ℤ
  pub status : RequestStatus
  pub approved_by : String
  pub approved_at : Option ℤ

pub record ActivePrivilege : Type 0 where
  pub type : PrivilegeType
  pub granted_at : ℤ
  pub expires_at : ℤ
  pub granted_by : String

pub record SessionSettings : Type 0 where
  pub allow_file_transfer : Bool
  pub allow_clipboard : Bool
  pub allow_printing : Bool
  pub session_timeout : ℤ
  pub idle_timeout : ℤ
  pub record_session : Bool
  pub require_approval : Bool
  pub max_privilege_duration : ℤ

pub record SessionStatistics : Type 0 where
  pub commands_executed : ℤ
  pub files_transferred : ℤ
  pub bytes_transferred : ℤ
  pub screenshots_taken : ℤ
  pub privilege_escalations : ℤ
  pub duration : ℤ
  pub last_command : String
  pub last_command_time : Option ℤ

pub record Session : Type 0 where
  pub id : String
  pub client_id : String
  pub technician_id : String
  pub status : SessionStatus
  pub start_time : ℤ
  pub end_time : Option ℤ
  pub client_info : Option ClientInfo
  pub privileges : List PrivilegeRequest
  pub active_privileges : Map ActivePrivilege
  pub client_conn : Option Conn
  pub portal_conn : Option Conn
  pub last_activity : ℤ
  pub settings : SessionSettings
  pub statistics : SessionStatistics

pub data Error : Type 0 where
  max_sessions_reached session_not_found request_not_found request_not_pending : Error
  privilege_not_active : Error

pub data Result {ℓ} (A : Type ℓ) : Type ℓ where
  err : Error → Result A
  ok : A → Result A

pub Result-cases {ℓ} :
    {A : Type ℓ} (r : Result A) → ((e : Error) × (r ≡ err e)) ⊎ ((a : A) × (r ≡ ok a))
Result-cases (ok a) = inr (a, refl)
Result-cases (err e) = inl (e, refl)

-- `t.Sub(u)`, which saturates.
abbrev pub sub_time : ℤ → ℤ → ℤ
sub_time t u = sat64 (t -ℤ u)

-- One hour and one minute.
abbrev pub hour : ℕ
hour = 3_600_000_000_000

abbrev pub minute : ℕ
minute = 60_000_000_000

unfoldable pub default_session_settings : SessionSettings
default_session_settings = record {
  allow_file_transfer = true;
  allow_clipboard = true;
  allow_printing = false;
  session_timeout = pos 14_400_000_000_000;
  idle_timeout = pos 1_800_000_000_000;
  record_session = true;
  require_approval = true;
  max_privilege_duration = pos hour;
}

abbrev pub empty_statistics : SessionStatistics
empty_statistics = record {
  commands_executed = pos 0;
  files_transferred = pos 0;
  bytes_transferred = pos 0;
  screenshots_taken = pos 0;
  privilege_escalations = pos 0;
  duration = pos 0;
  last_command = "";
  last_command_time = none;
}

unfoldable pub new_session : String → ℤ → String → String → Option ClientInfo → Session
unfolding default_session_settings
new_session fresh now client_id technician_id info = record {
  id = fresh;
  client_id = client_id;
  technician_id = technician_id;
  status = SessionStatus.pending;
  start_time = now;
  end_time = none;
  client_info = info;
  privileges = [];
  active_privileges = [];
  client_conn = none;
  portal_conn = none;
  last_activity = now;
  settings = default_session_settings;
  statistics = empty_statistics;
}
