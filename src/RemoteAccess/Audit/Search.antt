-- ===== src/RemoteAccess/Audit/Search.antt =====
-- audit.go: `SearchLogs`.
use onli_desk_full.Common.{ap, ◌≡◌, refl, ℕ, String, Option, none, some, List, [], ◌∷◌}
use onli_desk_full.RemoteAccess.Audit.{AuditEvent}

-- The loop of `SearchLogs` opens and closes the files, the newest first, and reads none of them.
unfoldable pub search_loop : ℕ → List String → List AuditEvent → List AuditEvent
search_loop limit [] events = events
search_loop limit (f ∷ fs) events = search_loop limit fs events

-- `none` is an error of `filepath.Glob`.
unfoldable pub search_logs : Option (List String) → ℕ → Option (List AuditEvent)
unfolding search_loop
search_logs none limit = none
search_logs (some files) limit = some (search_loop limit files [])

search_loop_lem :
    (limit : ℕ) (files : List String) (events : List AuditEvent)
    → search_loop limit files events ≡ events
unfolding search_loop
search_loop_lem limit [] events = refl
search_loop_lem limit (f ∷ fs) events = search_loop_lem limit fs events

-- No search of the logs finds an event.
pub search_logs_finds_none :
    (files : List String) (limit : ℕ) → search_logs (some files) limit ≡ some []
unfolding search_logs
search_logs_finds_none files limit = ap some (search_loop_lem limit files [])
