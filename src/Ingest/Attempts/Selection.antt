-- ===== src/Ingest/Attempts/Selection.antt =====
-- What Postgres does with the queries of GetDeliveryStatus and ListDLQ: WHERE clauses with numbered
-- placeholders, ORDER BY and LIMIT. Rows with equal keys keep the order of the table.
use harbor_hook.Common.{
  ℕ, zero, suc, String, List, [], ◌∷◌, Option, none, some, Bool, true, false, ◌&&◌, ◌==◌, leb,
  if◌then◌else◌,
}
use harbor_hook.Store.{Delivery}

pub data Argument : Type 0 where
  text : String → Argument
  time : ℕ → Argument
  count : ℕ → Argument

pub data Condition : Type 0 where
  event_is endpoint_is enqueued_from enqueued_to : Condition

-- `d.column op $placeholder`
pub record Clause : Type 0 where
  pub condition : Condition
  pub placeholder : ℕ

-- $1 is the first argument.
unfoldable pub argument : ℕ → List Argument → Option Argument
argument n [] = none
argument zero (a ∷ args) = none
argument (suc zero) (a ∷ args) = some a
argument (suc (suc n)) (a ∷ args) = argument (suc n) args

abbrev pub at_least : Option ℕ → ℕ → Bool
at_least none t = false
at_least (some e) t = leb t e

abbrev pub at_most : Option ℕ → ℕ → Bool
at_most none t = false
at_most (some e) t = leb e t

-- An argument of the wrong type matches nothing.
abbrev pub meets : Delivery → Condition → Option Argument → Bool
meets d event_is (some (text id)) = d.event_id == id
meets d endpoint_is (some (text id)) = d.endpoint_id == id
meets d enqueued_from (some (time t)) = at_least d.enqueued_at t
meets d enqueued_to (some (time t)) = at_most d.enqueued_at t
meets d _ _ = false

unfoldable pub satisfies : List Argument → List Clause → Delivery → Bool
unfolding argument
satisfies args [] d = true
satisfies args (c ∷ clauses) d =
    meets d c.condition (argument c.placeholder args) && satisfies args clauses d

-- NULL is the greatest value.
abbrev earlier : Option ℕ → Option ℕ → Bool
earlier a none = true
earlier none (some b) = false
earlier (some a) (some b) = leb a b

pub insert_by_enqueued : Delivery → List Delivery → List Delivery
insert_by_enqueued d [] = d ∷ []
insert_by_enqueued d (x ∷ xs) =
    if earlier d.enqueued_at x.enqueued_at then d ∷ x ∷ xs else x ∷ insert_by_enqueued d xs

-- ORDER BY d.enqueued_at ASC
unfoldable pub sort_by_enqueued : List Delivery → List Delivery
unfolding insert_by_enqueued
sort_by_enqueued [] = []
sort_by_enqueued (d ∷ ds) = insert_by_enqueued d (sort_by_enqueued ds)
