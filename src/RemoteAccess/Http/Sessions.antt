-- ===== src/RemoteAccess/Http/Sessions.antt =====
-- http_handlers.go: the handlers of sessions, statistics and the configuration.
use onli_desk_full.Common.{
  ℤ, pos, ◌+ℤ◌, String, ◌==◌, Bool, true, false, ◌&&◌, Option, none, some, length, if◌then◌else◌,
}
use onli_desk_full.RemoteAccess.Config.{RemoteAccessConfig, validate}
use onli_desk_full.RemoteAccess.Session.{Session, ClientInfo, ok, err}
use onli_desk_full.RemoteAccess.Manager.{
  Manager, Created, created, refused, panicked, create_session, get_session, terminate_session,
  put_session,
}
use onli_desk_full.RemoteAccess.Manager.Upkeep.{get_statistics, update_config}
use onli_desk_full.RemoteAccess.Http.Replies.{
  CreateBody, invalid_request_body, client_id_required, technician_id_required, session_not_found,
  invalid_duration_format, create_failed, invalid_configuration, SessionStats, session_body,
  session_terminated, configuration_updated, session_extended, statistics_body, session_statistics,
  config_body, health, problem, Reply, reply, crashed,
}

-- The fields that are given replace those of the client information.
unfoldable pub given : String → String → String
given new old = if new == "" then old else new

unfoldable pub fill_client_info : CreateBody → ClientInfo → ClientInfo
unfolding given
fill_client_info b i = record i {
  hostname = given b.hostname i.hostname;
  operating_system = given b.os i.operating_system;
  user_agent = given b.user_agent (given b.version i.user_agent);
  ip_address = given b.ip_address i.ip_address;
}

-- Whether a field of the client information is written.
unfoldable pub gives_info : CreateBody → Bool
gives_info b =
    if b.hostname == "" && b.os == "" && b.version == "" && b.ip_address == "" && b.user_agent == ""
    then false
    else true

-- What follows a creation. A write through a nil `ClientInfo` panics.
unfoldable pub reply_creation : CreateBody → Manager × Created → Manager × Reply
unfolding fill_client_info gives_info
reply_creation b (m, refused e) = (m, reply 500 (problem (create_failed e)))
reply_creation b (m, panicked) = (m, crashed)
reply_creation b (m, created s) = elim s.client_info [
  | none ↦ if gives_info b then (m, crashed) else (m, reply 201 (session_body s))
  | some i ↦
      let s' = record s { client_info = some (fill_client_info b i) } in
      (put_session s.id s' m, reply 201 (session_body s'))
]

unfoldable pub handle_create_session : String → ℤ → Option CreateBody → Manager → Manager × Reply
unfolding reply_creation
handle_create_session fresh now none m = (m, reply 400 (problem invalid_request_body))
handle_create_session fresh now (some b) m =
    if b.client_id == ""
    then (m, reply 400 (problem client_id_required))
    else if b.technician_id == ""
    then (m, reply 400 (problem technician_id_required))
    else reply_creation b (create_session fresh now b.client_id b.technician_id none m)

unfoldable pub handle_get_session : String → Manager → Manager × Reply
unfolding get_session
handle_get_session id m = elim (get_session id m) [
  | none ↦ (m, reply 404 (problem session_not_found))
  | some s ↦ (m, reply 200 (session_body s))
]

unfoldable pub handle_terminate_session : ℤ → String → Manager → Manager × Reply
handle_terminate_session now id m = elim (terminate_session now id m) [
  | err e ↦ (m, reply 404 (problem session_not_found))
  | ok m' ↦ (m', reply 200 session_terminated)
]

-- `StartTime.Add(time.Hour * 24)`.
abbrev pub day_after : ℤ → ℤ
day_after t = t +ℤ pos 86_400_000_000_000

module _ (parse_duration : String → Option ℤ) where
  unfoldable pub handle_extend_session : String → Option String → Manager → Manager × Reply
  unfolding get_session
  handle_extend_session id none m = (m, reply 400 (problem invalid_request_body))
  handle_extend_session id (some text) m = elim (parse_duration text) [
    | none ↦ (m, reply 400 (problem invalid_duration_format))
    | some d ↦ elim (get_session id m) [
      | none ↦ (m, reply 404 (problem session_not_found))
      | some s ↦ (m, reply 200 (session_extended (day_after s.start_time)))
    ]
  ]

unfoldable pub handle_get_statistics : Manager → Manager × Reply
unfolding get_statistics
handle_get_statistics m = (m, reply 200 (statistics_body (get_statistics m)))

unfoldable pub session_stats : Session → SessionStats
session_stats s = record {
  session_id = s.id;
  status = s.status;
  created_at = s.start_time;
  last_activity = s.last_activity;
  expires_at = day_after s.start_time;
  commands_executed = s.statistics.commands_executed;
  files_transferred = s.statistics.files_transferred;
  screenshots_taken = s.statistics.screenshots_taken;
  privileges_active = length s.active_privileges;
}

unfoldable pub handle_get_session_statistics : String → Manager → Manager × Reply
unfolding get_session session_stats
handle_get_session_statistics id m = elim (get_session id m) [
  | none ↦ (m, reply 404 (problem session_not_found))
  | some s ↦ (m, reply 200 (session_statistics (session_stats s)))
]

unfoldable pub handle_get_config : Manager → Manager × Reply
handle_get_config m = (m, reply 200 (config_body m.config))

unfoldable pub handle_update_config : Option RemoteAccessConfig → Manager → Manager × Reply
unfolding update_config
handle_update_config none m = (m, reply 400 (problem invalid_request_body))
handle_update_config (some c) m = elim (validate c) [
  | some e ↦ (m, reply 400 (problem (invalid_configuration e)))
  | none ↦ (update_config c m, reply 200 configuration_updated)
]

-- The statistics hold no `uptime`, `memory_usage` and `websocket_connections`: those are null.
unfoldable pub handle_health_check : ℤ → Manager → Manager × Reply
unfolding get_statistics
handle_health_check now m = (m, reply 200 (health now (get_statistics m)))
