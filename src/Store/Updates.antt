-- ===== src/Store/Updates.antt =====
-- The UPDATE statements of cmd/worker/main.go, with the trigger update_delivery_timestamps and the
-- partial unique index uq_single_pending_replay of 04_phase3.sql.
use harbor_hook.Common.{
  ℕ, String, Option, none, some, List, [], ◌∷◌, Bool, true, false, ◌&&◌, not, ◌==◌, any, Result, ok,
  err, if◌then◌else◌,
}
use harbor_hook.Store.{Status, Delivery, Db, Statement}
use harbor_hook.Store.Inserts.{is_pending, replays}
use harbor_hook.Store.Queries.{delivery_at}

abbrev pub same_status : Status → Status → Bool
same_status Status.pending Status.pending = true
same_status Status.ok Status.ok = true
same_status Status.failed Status.failed = true
same_status Status.queued Status.queued = true
same_status Status.inflight Status.inflight = true
same_status Status.delivered Status.delivered = true
same_status Status.dead Status.dead = true
same_status _ _ = false

abbrev or_now : ℕ → Option ℕ → Option ℕ
or_now now none = some now
or_now now (some t) = some t

-- The body of the trigger: `old` is the status before, `new` the row as the statement sets it.
-- A CASE with no matching branch raises an error, which is `none`.
unfoldable pub update_delivery_timestamps : ℕ → Status → Status → Delivery → Option Delivery
update_delivery_timestamps now old Status.queued new = some (
    if same_status old Status.queued
    then record new { updated_at = now }
    else record new { enqueued_at = or_now now new.enqueued_at; updated_at = now })
update_delivery_timestamps now old Status.inflight new = some (
    if same_status old Status.inflight
    then record new { updated_at = now }
    else record new { dequeued_at = some now; updated_at = now })
update_delivery_timestamps now old Status.delivered new = some (
    if same_status old Status.delivered
    then record new { updated_at = now }
    else record new { delivered_at = some now; updated_at = now })
update_delivery_timestamps now old Status.failed new = some (
    if same_status old Status.failed
    then record new { updated_at = now }
    else record new { failed_at = some now; updated_at = now })
update_delivery_timestamps now old Status.dead new = some (
    if same_status old Status.dead
    then record new { updated_at = now }
    else record new { dlq_at = some now; updated_at = now })
update_delivery_timestamps now old _ new = none

-- another row than `id` is a pending replay of the same source
abbrev pub clashes : String → Option String → List Delivery → Bool
clashes id none ds = false
clashes id (some source) ds = any (λ d. replays source d && not (d.id == id)) ds

abbrev pub replace : String → Delivery → List Delivery → List Delivery
replace id new [] = []
replace id new (d ∷ ds) = if d.id == id then new ∷ ds else d ∷ replace id new ds

abbrev pub checked : String → Option Delivery → Db → Result (Unit {0} × Db)
checked id none db = err "case not found"
checked id (some new) db =
    if is_pending new.status && clashes id new.replay_of db.deliveries
    then err "duplicate key: uq_single_pending_replay"
    else ok (tt, record db { deliveries = replace id new db.deliveries })

-- UPDATE deliveries SET … WHERE id = $1; a missing row is no error
unfoldable pub update_delivery : ℕ → String → (Delivery → Delivery) → Statement (Unit {0})
unfolding update_delivery_timestamps
update_delivery now id set db = elim (delivery_at id db.deliveries) [
  | none ↦ ok (tt, db)
  | some old ↦
      let new = set old in checked id (update_delivery_timestamps now old.status new.status new) db
]
