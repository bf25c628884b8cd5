-- ===== src/Listing/Orders.antt =====
-- `ORDER BY` one column, as `list` of job.service.ts asks for: rows with the same value of it may come in
-- any order, and in another one at the next query. Where no two rows have the same value, there is one
-- order only.
use realtime_ops_platform.Prelude.{
  ℕ, ◌≤◌, ◌<◌, List, [], ◌∷◌, ◌++◌, ◌≡◌, sym, subst, ◌∙◌, ap, arith, All,
}
use realtime_ops_platform.Core.Entities.{JobEntity}
use realtime_ops_platform.Runtime.Calls.{
  SortField, SortOrder, asc, desc, by_created_at, by_priority, by_updated_at,
}

-- the column
abbrev pub sort_key : SortField → JobEntity → ℕ
sort_key by_created_at job = job.created_at
sort_key by_priority job = job.priority
sort_key by_updated_at job = job.updated_at

module _ (field : SortField) where
  -- `j` may come before `k`
  abbrev pub Before : SortOrder → JobEntity → JobEntity → Type 0
  Before asc j k = sort_key field j ≤ sort_key field k
  Before desc j k = sort_key field k ≤ sort_key field j

  -- `j` must come before `k`
  abbrev pub MustBefore : SortOrder → JobEntity → JobEntity → Type 0
  MustBefore asc j k = sort_key field j < sort_key field k
  MustBefore desc j k = sort_key field k < sort_key field j

  abbrev pub IsOrdered : SortOrder → List JobEntity → Type 0
  IsOrdered order [] = Unit
  IsOrdered order (j ∷ js) = All (Before order j) js × IsOrdered order js

  -- in order, and no two with the same value
  abbrev pub IsDistinct : SortOrder → List JobEntity → Type 0
  IsDistinct order [] = Unit
  IsDistinct order (j ∷ js) = All (MustBefore order j) js × IsDistinct order js

-- The one list is the other in some order: each of its rows in turn is taken out of the other.
abbrev pub Arranges : List JobEntity → List JobEntity → Type 0
Arranges [] rows = rows ≡ []
Arranges (x ∷ xs) rows =
    (front : List JobEntity) × (back : List JobEntity) × (rows ≡ front ++ x ∷ back)
    × Arranges xs (front ++ back)

module _ (P : JobEntity → Type 0) where
  All-insert :
      (front back : List JobEntity) (x : JobEntity)
      → P x
      → All P (front ++ back)
      → All P (front ++ x ∷ back)
  All-insert [] back x p ps = (p, ps)
  All-insert (f ∷ front) back x p (q, ps) = (q, All-insert front back x p ps)

  All-middle : (front back : List JobEntity) (x : JobEntity) → All P (front ++ x ∷ back) → P x
  All-middle [] back x (p, ps) = p
  All-middle (f ∷ front) back x (q, ps) = All-middle front back x ps

  All-Arranges : (xs rows : List JobEntity) → All P xs → Arranges xs rows → All P rows
  All-Arranges [] rows ps e = subst (All P) (sym e) tt
  All-Arranges (x ∷ xs) rows (p, ps) (front, back, e, rest) =
      subst (All P) (sym e) (All-insert front back x p (All-Arranges xs (front ++ back) ps rest))

module _ (field : SortField) where
  MustBefore-not-Before :
      (order : SortOrder) (j k : JobEntity) → MustBefore field order j k → ¬ Before field order k j
  MustBefore-not-Before asc j k l m = omega (arith, l, m)
  MustBefore-not-Before desc j k l m = omega (arith, l, m)

  -- Rows of which no two have the same value have one order.
  pub ordered_unique :
      (order : SortOrder) (xs rows : List JobEntity)
      → Arranges xs rows
      → IsOrdered field order xs
      → IsDistinct field order rows
      → xs ≡ rows
  ordered_unique order [] rows e o d = sym e
  ordered_unique order (x ∷ xs) rows ([], back, e, rest) (first, o) d =
      let (_, distinct) = subst (IsDistinct field order) e d in
      ap (λ ys. x ∷ ys) (ordered_unique order xs back rest o distinct) ∙ sym e
  ordered_unique order (x ∷ xs) rows (f ∷ front, back, e, rest) (first, o) d =
      let (must, _) = subst (IsDistinct field order) e d in
      let (may, _) = All-Arranges (Before field order x) xs (f ∷ (front ++ back)) first rest in
      absurd (
        MustBefore-not-Before order f x (All-middle (MustBefore field order f) front back x must)
          may)
