-- ===== src/Ingest/Attempts/Labels.antt =====
-- The statuses of the table and those of the messages of internal/ingest/service.go.
use harbor_hook.Common.{◌≡◌, refl}
use harbor_hook.Store.{Status}
use harbor_hook.Ingest.Attempts.{AttemptStatus, map_status, status_text}

-- the status of the protocol for each status of the table
abbrev pub label : Status → AttemptStatus
label Status.pending = AttemptStatus.queued
label Status.queued = AttemptStatus.queued
label Status.inflight = AttemptStatus.in_flight
label Status.ok = AttemptStatus.delivered
label Status.delivered = AttemptStatus.delivered
label Status.failed = AttemptStatus.failed
label Status.dead = AttemptStatus.dead_lettered

map_status-label : (s : Status) → map_status (status_text s) ≡ label s
unfolding map_status
map_status-label Status.pending = refl
map_status-label Status.queued = refl
map_status-label Status.inflight = refl
map_status-label Status.ok = refl
map_status-label Status.delivered = refl
map_status-label Status.failed = refl
map_status-label Status.dead = refl
