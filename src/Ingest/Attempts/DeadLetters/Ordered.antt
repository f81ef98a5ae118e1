-- ===== src/Ingest/Attempts/DeadLetters/Ordered.antt =====
-- The rows that ListDLQ of internal/ingest/service.go returns.
use harbor_hook.Common.{
  In, filter-In, All-In, filter-All, ◌⊎◌, inl, inr, sym, subst, ap, Bool-cases, ℕ, zero, suc, ◌≤◌,
  List, [], ◌∷◌, Option, none, some, Bool, true, false, leb, filter, take, length, length-take-le,
  All, All-take, All-mono, if◌then◌else◌, ◌≡◌, refl, arith,
}
use harbor_hook.Store.{Delivery, DlqEntry, Db}
use harbor_hook.Store.Queries.{delivery_at}
use harbor_hook.Ingest.Attempts.{limit_of}
use harbor_hook.Ingest.Attempts.DeadLetters.{
  ListDlqRequest, joined, join_dlq, insert_by_created, sort_by_created, wanted, dead_rows,
}

abbrev Row : Type 0
Row = DlqEntry × Delivery

-- The row of dlq is in the table, the delivery is the one that it names, and it is of the endpoint asked
-- for, if any.
pub record IsListed (req : ListDlqRequest) (db : Db) (r : DlqEntry × Delivery) : Type 0 where
  pub entry : In r.0 db.dlq
  pub delivery : delivery_at r.0.delivery_id db.deliveries ≡ some r.1
  pub endpoint : wanted req.endpoint_id r ≡ true

-- newest first
abbrev pub Descending : List (DlqEntry × Delivery) → Type 0
Descending [] = Unit {0}
Descending (r ∷ rs) = All (λ x. x.0.created_at ≤ r.0.created_at) rs × Descending rs

joined-All :
    (P : Row → Type 0) (o : Option Delivery) (rest : List Row) (q : DlqEntry)
    → ((d : Delivery) → o ≡ some d → P (q, d))
    → All P rest
    → All P (joined o rest q)
joined-All P none rest q h all = all
joined-All P (some d) rest q h all = (h d refl, all)

join_dlq-All :
    (ds : List Delivery) (qs : List DlqEntry)
    → All (λ (r : Row). In r.0 qs × (delivery_at r.0.delivery_id ds ≡ some r.1)) (join_dlq ds qs)
unfolding join_dlq
join_dlq-All ds [] = tt
join_dlq-All ds (q ∷ qs) =
    joined-All (λ r. In r.0 (q ∷ qs) × (delivery_at r.0.delivery_id ds ≡ some r.1))
      (delivery_at q.delivery_id ds) (join_dlq ds qs) q (λ d e. (inl refl, e))
      (All-mono (λ (r : Row). In r.0 qs × (delivery_at r.0.delivery_id ds ≡ some r.1))
        (λ (r : Row). In r.0 (q ∷ qs) × (delivery_at r.0.delivery_id ds ≡ some r.1))
        (join_dlq ds qs) (λ r h. (inr h.0, h.1)) (join_dlq-All ds qs))

joined-In :
    (o : Option Delivery) (rest : List Row) (q : DlqEntry) (r : Row)
    → In r rest
    → In r (joined o rest q)
joined-In none rest q r h = h
joined-In (some d) rest q r h = inr h

join_dlq-In :
    (ds : List Delivery) (qs : List DlqEntry) (q : DlqEntry) (d : Delivery)
    → In q qs
    → delivery_at q.delivery_id ds ≡ some d
    → In (q, d) (join_dlq ds qs)
unfolding join_dlq
join_dlq-In ds [] q d m found = absurd m
join_dlq-In ds (x ∷ qs) q d (inl same) found =
    subst (λ (y : DlqEntry). In (q, d) (joined (delivery_at y.delivery_id ds) (join_dlq ds qs) y))
      (sym same) (subst (λ o. In (q, d) (joined o (join_dlq ds qs) q)) (sym found) (inl refl))
join_dlq-In ds (x ∷ qs) q d (inr later) found =
    joined-In (delivery_at x.delivery_id ds) (join_dlq ds qs) x (q, d)
      (join_dlq-In ds qs q d later found)

insert-All :
    (P : Row → Type 0) (r : Row) (xs : List Row) → P r → All P xs → All P (insert_by_created r xs)
unfolding insert_by_created
insert-All P r [] h hs = (h, tt)
insert-All P r (x ∷ xs) h (hx, hs) = go (leb x.0.created_at r.0.created_at) (insert-All P r xs h hs)
  where
    go :
        (b : Bool)
        → All P (insert_by_created r xs)
        → All P (if b then r ∷ x ∷ xs else x ∷ insert_by_created r xs)
    go true rest = (h, (hx, hs))
    go false rest = (hx, rest)

sort-All : (P : Row → Type 0) (xs : List Row) → All P xs → All P (sort_by_created xs)
unfolding sort_by_created
sort-All P [] h = tt
sort-All P (x ∷ xs) (h, hs) = insert-All P x (sort_by_created xs) h (sort-All P xs hs)

behind-In :
    (r x a : Row) (xs ys : List Row) → (In a (r ∷ xs) → In a ys) → In a (r ∷ x ∷ xs) → In a (x ∷ ys)
behind-In r x a xs ys f (inl same) = inr (f (inl same))
behind-In r x a xs ys f (inr (inl same)) = inl same
behind-In r x a xs ys f (inr (inr later)) = inr (f (inr later))

insert-In : (r : Row) (xs : List Row) (a : Row) → In a (r ∷ xs) → In a (insert_by_created r xs)
unfolding insert_by_created
insert-In r [] a h = h
insert-In r (x ∷ xs) a h =
    let further = behind-In r x a xs (insert_by_created r xs) (insert-In r xs a) h in
    elim (Bool-cases (leb x.0.created_at r.0.created_at)) [ inl e ↦ rw e h | inr e ↦ rw e further ]

sort-In : (xs : List Row) (a : Row) → In a xs → In a (sort_by_created xs)
unfolding sort_by_created
sort-In [] a m = absurd m
sort-In (x ∷ xs) a (inl same) = insert-In x (sort_by_created xs) a (inl same)
sort-In (x ∷ xs) a (inr later) = insert-In x (sort_by_created xs) a (inr (sort-In xs a later))

insert-Descending : (r : Row) (xs : List Row) → Descending xs → Descending (insert_by_created r xs)
unfolding insert_by_created
insert-Descending r [] h = (tt, tt)
insert-Descending r (x ∷ xs) (h, hs) =
    go (leb x.0.created_at r.0.created_at) refl (insert-Descending r xs hs)
  where
    go :
        (b : Bool)
        → leb x.0.created_at r.0.created_at ≡ b
        → Descending (insert_by_created r xs)
        → Descending (if b then r ∷ x ∷ xs else x ∷ insert_by_created r xs)
    go true e rest =
        let le : x.0.created_at ≤ r.0.created_at = ground arith in
        (
          (
            le,
            All-mono (λ (y : Row). y.0.created_at ≤ x.0.created_at)
                (λ (y : Row). y.0.created_at ≤ r.0.created_at) xs (λ y k. omega arith) h,
          ),
          (h, hs),
        )
    go false e rest =
        let le : r.0.created_at ≤ x.0.created_at = ground arith in
        (insert-All (λ (y : Row). y.0.created_at ≤ x.0.created_at) r xs le h, rest)

sort-Descending : (xs : List Row) → Descending (sort_by_created xs)
unfolding sort_by_created
sort-Descending [] = tt
sort-Descending (x ∷ xs) = insert-Descending x (sort_by_created xs) (sort-Descending xs)

take-Descending : (n : ℕ) (xs : List Row) → Descending xs → Descending (take n xs)
take-Descending zero xs h = tt
take-Descending (suc n) [] h = tt
take-Descending (suc n) (x ∷ xs) (h, hs) =
    (All-take (λ (y : Row). y.0.created_at ≤ x.0.created_at) n xs h, take-Descending n xs hs)

-- A row is listed, or the list is full and no row of it is older.
abbrev pub IsServed : ℕ → List (DlqEntry × Delivery) → DlqEntry × Delivery → Type 0
IsServed limit rows r =
    In r rows ⊎ ((length rows ≡ limit) × All (λ x. r.0.created_at ≤ x.0.created_at) rows)

take-IsServed :
    (n : ℕ) (xs : List Row) (r : Row) → Descending xs → In r xs → IsServed n (take n xs) r
take-IsServed zero xs r h m = inr (refl, tt)
take-IsServed (suc n) [] r h m = absurd m
take-IsServed (suc n) (x ∷ xs) r (h, hs) (inl same) = inl (inl same)
take-IsServed (suc n) (x ∷ xs) r (h, hs) (inr later) = elim (take-IsServed n xs r hs later) [
  | inl m ↦ inl (inr m)
  | inr (full, all) ↦
      let newer = All-In (λ (y : Row). y.0.created_at ≤ x.0.created_at) xs r h later in
      inr (ap suc full, (newer, all))
]

-- ListDLQ selects at most as many rows as its limit, newest first; each is a row of the table dlq
-- with the delivery that it names, of the endpoint asked for if there is one; and every such row is
-- among them, unless they are as many as the limit and none of them is older than it.
pub dead_rows-IsListed :
    (req : ListDlqRequest) (db : Db)
    → (length (dead_rows req db) ≤ limit_of req.limit)
      × Descending (dead_rows req db)
      × All (IsListed req db) (dead_rows req db)
      × ((q : DlqEntry) (d : Delivery)
          → In q db.dlq
          → delivery_at q.delivery_id db.deliveries ≡ some d
          → wanted req.endpoint_id (q, d) ≡ true
          → IsServed (limit_of req.limit) (dead_rows req db) (q, d))
unfolding dead_rows
dead_rows-IsListed req db =
    let pairs = join_dlq db.deliveries db.dlq in
    let rows = filter (wanted req.endpoint_id) pairs in
    let sorted = sort-Descending rows in
    let found =
      filter-All
        (λ (r : Row). In r.0 db.dlq × (delivery_at r.0.delivery_id db.deliveries ≡ some r.1))
        (wanted req.endpoint_id) pairs (join_dlq-All db.deliveries db.dlq) in
    let listed =
      All-mono _ (IsListed req db) rows
        (λ r h. record { entry = h.0.0; delivery = h.0.1; endpoint = h.1 }) found in
    (
      length-take-le (limit_of req.limit) (sort_by_created rows),
      take-Descending (limit_of req.limit) (sort_by_created rows) sorted,
      All-take (IsListed req db) (limit_of req.limit) (sort_by_created rows)
          (sort-All (IsListed req db) rows listed),
      λ q d there at asked.
          take-IsServed (limit_of req.limit) (sort_by_created rows) (q, d) sorted
            (sort-In rows (q, d)
              (filter-In (wanted req.endpoint_id) pairs (q, d)
                (join_dlq-In db.deliveries db.dlq q d there at) asked)),
    )
