-- ===== src/Store/Rows.antt =====
-- What an UPDATE of deliveries does to the row that it names, with its trigger.
use harbor_hook.Common.{
  ℕ, String, none, some, List, [], ◌∷◌, Bool, true, false, ◌&&◌, ◌==◌, ok, err, ◌≡◌, refl, ◌⊎◌, inl,
  inr, subst, ◌≢◌, if◌then◌else◌, Bool-cases, Option-cases, arith, sym,
}
use harbor_hook.Store.{Status, Delivery, Db}
use harbor_hook.Store.Inserts.{is_pending}
use harbor_hook.Store.Queries.{delivery_at}
use harbor_hook.Store.Updates.{
  update_delivery, update_delivery_timestamps, same_status, checked, clashes, replace,
}

-- two rows that differ in times alone
pub record Same (d e : Delivery) : Type 0 where
  pub id : d.id ≡ e.id
  pub event_id : d.event_id ≡ e.event_id
  pub endpoint_id : d.endpoint_id ≡ e.endpoint_id
  pub status : d.status ≡ e.status
  pub attempt : d.attempt ≡ e.attempt
  pub http_status : d.http_status ≡ e.http_status
  pub last_error : d.last_error ≡ e.last_error

abbrev same :
    {d e : Delivery}
    → d.id ≡ e.id
    → d.event_id ≡ e.event_id
    → d.endpoint_id ≡ e.endpoint_id
    → d.status ≡ e.status
    → d.attempt ≡ e.attempt
    → d.http_status ≡ e.http_status
    → d.last_error ≡ e.last_error
    → Same d e
same i v p a b c d = record {
  id = i;
  event_id = v;
  endpoint_id = p;
  status = a;
  attempt = b;
  http_status = c;
  last_error = d;
}

module _ (now : ℕ) (old : Status) (new : Delivery) where
  -- the trigger at a status for which it has a branch
  abbrev Stamped : Status → Type 0
  Stamped st = (d : Delivery) × (update_delivery_timestamps now old st new ≡ some d) × Same d new

  chosen :
      (b : Bool) (x y : Delivery)
      → Same x new
      → Same y new
      → (d : Delivery) × (some (if b then x else y) ≡ some d) × Same d new
  chosen true x y hx hy = (x, refl, hx)
  chosen false x y hx hy = (y, refl, hy)

  pub stamped : (st : Status) → (Stamped st) ⊎ (update_delivery_timestamps now old st new ≡ none)
  unfolding update_delivery_timestamps
  stamped Status.pending = inr refl
  stamped Status.ok = inr refl
  stamped Status.failed = inl (
      chosen (same_status old Status.failed) _ _ (same refl refl refl refl refl refl refl)
        (same refl refl refl refl refl refl refl))
  stamped Status.queued = inl (
      chosen (same_status old Status.queued) _ _ (same refl refl refl refl refl refl refl)
        (same refl refl refl refl refl refl refl))
  stamped Status.inflight = inl (
      chosen (same_status old Status.inflight) _ _ (same refl refl refl refl refl refl refl)
        (same refl refl refl refl refl refl refl))
  stamped Status.delivered = inl (
      chosen (same_status old Status.delivered) _ _ (same refl refl refl refl refl refl refl)
        (same refl refl refl refl refl refl refl))
  stamped Status.dead = inl (
      chosen (same_status old Status.dead) _ _ (same refl refl refl refl refl refl refl)
        (same refl refl refl refl refl refl refl))

-- the statuses in which a handling of a message leaves a delivery
abbrev pub IsSettled : Status → Type 0
IsSettled Status.failed = Unit {0}
IsSettled Status.delivered = Unit {0}
IsSettled Status.dead = Unit {0}
IsSettled _ = ⊥

settled-calm : (st : Status) → IsSettled st → is_pending st ≡ false
settled-calm Status.pending h = absurd h
settled-calm Status.ok h = absurd h
settled-calm Status.queued h = absurd h
settled-calm Status.inflight h = absurd h
settled-calm Status.failed h = refl
settled-calm Status.delivered h = refl
settled-calm Status.dead h = refl

Stamped-settled :
    (now : ℕ) (old : Status) (new : Delivery) (st : Status) → IsSettled st → Stamped now old new st
unfolding update_delivery_timestamps
Stamped-settled now old new st h = elim (stamped now old new st) [
  | inl s ↦ s
  | inr e ↦ absurd (unstamped st h e)
]
  where
    unstamped : (st : Status) → IsSettled st → update_delivery_timestamps now old st new ≢ none
    unstamped Status.pending h e = absurd h
    unstamped Status.ok h e = absurd h
    unstamped Status.queued h e = absurd h
    unstamped Status.inflight h e = absurd h
    unstamped Status.failed h e = cc e
    unstamped Status.delivered h e = cc e
    unstamped Status.dead h e = cc e

pub delivery_at-replace :
    (id : String) (d new : Delivery) (ds : List Delivery)
    → delivery_at id ds ≡ some d
    → (new.id == id) ≡ true
    → delivery_at id (replace id new ds) ≡ some new
delivery_at-replace id d new [] h e = absurd (cc h)
delivery_at-replace id d new (x ∷ xs) h e = elim (Bool-cases (x.id == id)) [
  | inl here ↦ ground arith
  | inr there ↦
      let found : delivery_at id xs ≡ some d = ground arith in
      let rest = delivery_at-replace id d new xs found e in ground arith
]

module _ (now : ℕ) (id : String) (set : Delivery → Delivery) (db : Db) (d : Delivery)
    (found : delivery_at id db.deliveries ≡ some d) where
  -- the changed table
  abbrev pub written : Delivery → Db
  written new = record db { deliveries = replace id new db.deliveries }

  update_delivery-eq :
      update_delivery now id set db
      ≡ checked id (update_delivery_timestamps now d.status (set d).status (set d)) db
  unfolding update_delivery
  update_delivery-eq = rw (update_delivery, found) refl

  -- The statement fails, or it puts a row in place that differs from the one set in times alone.
  pub update_delivery-cases :
      ((e : String) × (update_delivery now id set db ≡ err e))
      ⊎ ((new : Delivery) × (update_delivery now id set db ≡ ok (tt, written new))
          × Same new (set d))
  update_delivery-cases = elim (stamped now d.status (set d) (set d).status) [
    | inl (new, made, alike) ↦
        elim (Bool-cases (is_pending new.status && clashes id new.replay_of db.deliveries)) [
          | inl e ↦
              inl ("duplicate key: uq_single_pending_replay", rw (update_delivery-eq, made, e) refl)
          | inr e ↦ inr (new, rw (update_delivery-eq, made, e) refl, alike)
        ]
    | inr none_made ↦ inl ("case not found", rw (update_delivery-eq, none_made) refl)
  ]

  -- A statement that sets a settled status succeeds.
  pub update_delivery_settled :
      IsSettled (set d).status
      → (new : Delivery) × (update_delivery now id set db ≡ ok (tt, written new)) × Same new (set d)
  update_delivery_settled h =
      let (new, made, alike) = Stamped-settled now d.status (set d) (set d).status h in
      let calm : is_pending new.status ≡ false =
        subst (λ (s : Status). is_pending s ≡ false) (sym alike.status)
          (settled-calm (set d).status h) in
      (new, rw (update_delivery-eq, made, calm) refl, alike)

-- A statement that took effect left the table, or put a row in place of the one that it names.
pub update_delivery-eq_ok :
    (now : ℕ) (id : String) (set : Delivery → Delivery) (db db' : Db)
    → update_delivery now id set db ≡ ok (tt, db')
    → (db' ≡ db)
      ⊎ ((d new : Delivery) × (delivery_at id db.deliveries ≡ some d)
          × Same new (set d)
          × (db' ≡ record db { deliveries = replace id new db.deliveries }))
unfolding update_delivery
update_delivery-eq_ok now id set db db' e = elim (Option-cases (delivery_at id db.deliveries)) [
  | inl gone ↦
      let left : update_delivery now id set db ≡ ok (tt, db) = rw (update_delivery, gone) refl in
      inl (cc (left, e))
  | inr (d, found) ↦ elim (update_delivery-cases now id set db d found) [
    | inl (text, failed) ↦ absurd (cc (failed, e))
    | inr (new, made, alike) ↦ inr (d, new, found, alike, cc (made, e))
  ]
]
