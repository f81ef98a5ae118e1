-- ===== src/Store/Keys.antt =====
-- The primary key of harborhook.events: no two rows have the same identifier.
use harbor_hook.Common.{
  String, List, [], ◌∷◌, ◌++◌, some, Bool, false, ◌≡◌, arith, ◌==◌, eq_iff, any, find, any_of_find,
  any-snoc,
}
use harbor_hook.Store.{Event}
use harbor_hook.Store.Queries.{event_at}

abbrev pub has_event : String → List Event → Bool
has_event id = any λ e. e.id == id

abbrev pub HasUniqueIds : List Event → Type 0
HasUniqueIds [] = Unit
HasUniqueIds (e ∷ es) = (has_event e.id es ≡ false) × HasUniqueIds es

pub HasUniqueIds-snoc :
    (es : List Event) (e : Event)
    → HasUniqueIds es
    → has_event e.id es ≡ false
    → HasUniqueIds (es ++ e ∷ [])
HasUniqueIds-snoc [] e h n = ground arith
HasUniqueIds-snoc (x ∷ xs) e (h, hs) n = (
  any-snoc (λ y. y.id == x.id) xs e h (ground (arith, eq_iff x.id e.id, eq_iff e.id x.id)),
  HasUniqueIds-snoc xs e hs (ground arith),
)

-- A row that any query finds is the row of its identifier.
pub event_at_of_find :
    (p : Event → Bool) (es : List Event) (e : Event)
    → HasUniqueIds es
    → find p es ≡ some e
    → event_at e.id es ≡ some e
event_at_of_find p (x ∷ xs) e (h, hs) f = ground (
  arith,
  event_at_of_find p xs e hs,
  any_of_find p (λ y. y.id == x.id) xs e,
  eq_iff x.id e.id,
  eq_iff e.id x.id,
)
event_at_of_find p [] e h f = absurd (cc f)
