-- ===== src/RemoteAccess/WebSocket/Messages.antt =====
-- websocket_handler.go: the messages that a connection sends, and those it is sent. `encoding/json`
-- is a record of decoders, one for each struct that the handlers decode into; the JSON objects
-- `Params` and `Data` are kept as their text. A message that is sent is a constructor with the fields
-- that differ from one to the next of its kind; the texts of `Message` and `Status` are left out.
use onli_desk_full.Common.{ℤ, String, Bool, Option}
use onli_desk_full.FileTransfer.Chunks.{Bytes}
use onli_desk_full.RemoteAccess.Session.{Session, ClientInfo, PrivilegeType, Error}

pub record SessionRegister : Type 0 where
  pub session_id : String
  pub role : String
  pub client_id : String
  pub technician : String

pub record SessionCreate : Type 0 where
  pub client_id : String
  pub technician_id : String
  pub client_info : Option ClientInfo

pub record SessionJoin : Type 0 where
  pub session_id : String
  pub technician_id : String

pub record SessionTerminate : Type 0 where
  pub session_id : String
  pub reason : String

pub record PrivilegeAsk : Type 0 where
  pub session_id : String
  pub privilege_type : PrivilegeType
  pub justification : String
  pub duration : ℤ

pub record PrivilegeResponse : Type 0 where
  pub session_id : String
  pub request_id : String
  pub approved : Bool
  pub approved_by : String
  pub reason : String

pub record PrivilegeRevoke : Type 0 where
  pub session_id : String
  pub privilege_type : PrivilegeType

pub record ControlCommand : Type 0 where
  pub type : String
  pub session_id : String
  pub command : String
  pub params : String

pub record ScreenCapture : Type 0 where
  pub type : String
  pub session_id : String
  pub quality : ℤ
  pub format : String

pub record InputEvent : Type 0 where
  pub type : String
  pub session_id : String
  pub event_type : String
  pub content : String

pub record FileRequest : Type 0 where
  pub type : String
  pub session_id : String
  pub action : String
  pub filename : String
  pub file_size : ℤ

pub record Heartbeat : Type 0 where
  pub session_id : String
  pub timestamp : ℤ

pub record Decoders : Type 0 where
  pub base_type : Bytes → Option String
  pub session_register : Bytes → Option SessionRegister
  pub session_create : Bytes → Option SessionCreate
  pub session_join : Bytes → Option SessionJoin
  pub session_terminate : Bytes → Option SessionTerminate
  pub privilege_ask : Bytes → Option PrivilegeAsk
  pub privilege_response : Bytes → Option PrivilegeResponse
  pub privilege_revoke : Bytes → Option PrivilegeRevoke
  pub control_command : Bytes → Option ControlCommand
  pub screen_capture : Bytes → Option ScreenCapture
  pub input_event : Bytes → Option InputEvent
  pub file_request : Bytes → Option FileRequest
  pub heartbeat : Bytes → Option Heartbeat

-- The errors of the handlers, with what their texts say: what could not be parsed, what failed and
-- the manager's error.
pub data Fault : Type 0 where
  not_parsed : String → Fault
  unknown_message_type : String → Fault
  refused_by : String → Error → Fault
  no_session client_not_connected not_written : Fault

-- The answers, each with its time, and the messages passed on. A session is as it is when it is encoded.
pub data Response : Type 0 where
  session_registered : String → ℤ → Response
  session_created : String → Option Session → ℤ → Response
  session_joined : String → Option Session → ℤ → Response
  session_terminated : String → ℤ → Response
  privilege_requested : String → String → ℤ → Response
  privilege_response_processed : String → String → Bool → ℤ → Response
  privilege_revoked : String → PrivilegeType → ℤ → Response
  heartbeat_response : ℤ → Response
  error_response : Fault → ℤ → Response
  forwarded_command : ControlCommand → Response
  forwarded_capture : ScreenCapture → Response
  forwarded_input : InputEvent → Response
  forwarded_file : FileRequest → Response
