-- ===== src/RemoteAccess/Http.antt =====
-- src/server/internal/remoteaccess/http_handlers.go: the handlers of HTTP requests, each a function of
-- the request's parts that it reads and of the session manager. Parameters: the decoders of
-- `encoding/json` for the bodies, `strconv.Atoi` as `atoi`, and `time.ParseDuration` as
-- `parse_duration`. The router, the writing of the response and the middleware are left out.
pub mod Replies
pub mod Sessions
pub mod Privileges
pub mod Logs
pub mod Selection
pub mod Pages
pub mod Uncapped
pub mod Routes
pub mod Valid
use onli_desk_full.Common.{
  ◌≡◌, ℕ, ◌+◌, ◌≤◌, ℤ, pos, ◌+ℤ◌, leb_ℤ, ltb_ℤ, String, ◌==◌, Bool, true, false, ◌&&◌, ◌||◌, ◌-◌,
  pos_part, Option, none, some, List, [], ◌∷◌, leb, ltb, if◌then◌else◌, length, keep, take, drop,
}
use onli_desk_full.RemoteAccess.Session.{Session, SessionStatus}
use onli_desk_full.RemoteAccess.Manager.{Manager, get_all_sessions}
use onli_desk_full.RemoteAccess.Http.Replies.{Reply, reply, crashed, Body, sessions_page}

-- `string(session.Status)`.
abbrev pub status_text : SessionStatus → String
status_text SessionStatus.pending = "pending"
status_text SessionStatus.active = "active"
status_text SessionStatus.disconnected = "disconnected"
status_text SessionStatus.terminated = "terminated"
status_text SessionStatus.expired = "expired"

-- `xs[start:end]`, which panics out of range.
unfoldable pub slice {ℓ} : {A : Type ℓ} → ℤ → ℤ → List A → Option (List A)
slice start end xs =
    if leb_ℤ (pos 0) start && leb_ℤ start end && leb_ℤ end (pos (length xs))
    then some (take (pos_part end - pos_part start) (drop (pos_part start) xs))
    else none

-- The two filters of the loop.
unfoldable pub is_selected : String → String → Session → Bool
is_selected status technician s =
    (status == "" || status_text s.status == status)
    && (technician == "" || s.technician_id == technician)

unfoldable pub filtered_sessions : String → String → List Session → List Session
unfolding is_selected
filtered_sessions status technician ss = keep (is_selected status technician) ss

-- `start` and `end`, clamped to the number of sessions.
abbrev pub min_ℤ : ℤ → ℤ → ℤ
min_ℤ a b = if ltb_ℤ b a then b else a

module _ (atoi : String → Option ℤ) where
  -- `limit`, of at most 1000.
  unfoldable pub limit_of : ℤ → String → ℤ
  limit_of default text = if text == "" then default else elim (atoi text) [
    | none ↦ default
    | some l ↦ if ltb_ℤ (pos 0) l && leb_ℤ l (pos 1_000) then l else default
  ]

  unfoldable pub offset_of : String → ℤ
  offset_of text =
      if text == ""
      then pos 0
      else elim (atoi text) [ none ↦ pos 0 | some o ↦ if leb_ℤ (pos 0) o then o else pos 0 ]

  -- `order` is the order in which `range` visits the sessions this time.
  unfoldable pub handle_get_sessions :
      (List Session → List Session) → String → String → String → String → Manager → Manager × Reply
  unfolding limit_of offset_of filtered_sessions slice get_all_sessions
  handle_get_sessions order status technician limit_text offset_text m =
      let limit = limit_of (pos 50) limit_text in
      let offset = offset_of offset_text in
      let found = filtered_sessions status technician (order (get_all_sessions m)) in
      let total = pos (length found) in
      let start = min_ℤ offset total in
      let end = min_ℤ (start +ℤ limit) total in
      elim (slice start end found) [
        | none ↦ (m, crashed)
        | some page ↦ (m, reply 200 (sessions_page page (length found) limit offset))
      ]
