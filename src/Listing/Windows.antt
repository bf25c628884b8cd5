-- ===== src/Listing/Windows.antt =====
-- The pages of a list, read one after the other, are the list: against a database that answers
-- `findAndCount` by the rows from `skip` on, `take` of them, and by the number of all rows.
use realtime_ops_platform.Prelude.{
  ℕ, ℤ, zero, suc, ◌+◌, ◌*◌, ◌≤◌, ◌<◌, pos, negsuc, List, [], ◌∷◌, ◌++◌, ◌≡◌, refl, ap, sym, subst,
  ◌∙◌, length, take, drop, arith,
}
use realtime_ops_platform.Core.Entities.{JobEntity}
use realtime_ops_platform.Runtime.Calls.{Call, job_find_and_count}
use realtime_ops_platform.Runtime.Monad.{Env, M, ok, pure, ◌>>=◌}
use realtime_ops_platform.Listing.{
  JobQuery, PaginatedResult, job_find, list_jobs, page_count, paginated, skipped, sort_field,
}
use realtime_ops_platform.Listing.Orders.{Arranges, IsOrdered, IsDistinct, ordered_unique}
use realtime_ops_platform.Listing.Pages.{skipped_lem, page_count-enough}

module _ {A : Type 0} where
  take-drop : (n : ℕ) (xs : List A) → take n xs ++ drop n xs ≡ xs
  take-drop zero xs = refl
  take-drop (suc n) [] = refl
  take-drop (suc n) (x ∷ xs) = ap (λ ys. x ∷ ys) (take-drop n xs)

  drop-drop : (m n k : ℕ) (xs : List A) → k ≡ m + n → drop n (drop m xs) ≡ drop k xs
  drop-drop zero n k xs e = ap (λ j. drop j xs) (omega arith)
  drop-drop (suc m) n zero xs e = absurd (omega arith)
  drop-drop (suc m) n (suc k) (x ∷ xs) e = drop-drop m n k xs (omega arith)
  drop-drop (suc m) zero (suc k) [] e = refl
  drop-drop (suc m) (suc n) (suc k) [] e = refl

  drop_all : (n : ℕ) (xs : List A) → length xs ≤ n → drop n xs ≡ []
  drop_all zero [] p = refl
  drop_all zero (x ∷ xs) p = absurd (omega arith)
  drop_all (suc n) [] p = refl
  drop_all (suc n) (x ∷ xs) p = drop_all n xs (omega arith)

-- the rows from an offset on, as many as the limit
abbrev pub window : {A : Type 0} → ℤ → ℕ → List A → List A
window (pos offset) limit rows = take limit (drop offset rows)
window (negsuc n) limit rows = []

-- the query for another page
abbrev pub at_page : JobQuery → ℕ → JobQuery
at_page query page = record query { page = page }

-- The database holds these rows for the query, at every moment, and answers as is documented: it puts
-- them in some order that the request's column and direction allow, gives those from `skip` on, `take`
-- of them, and counts all.
abbrev pub Holds : Env → JobQuery → List JobEntity → Type 0
Holds env query rows =
    (page : ℕ) (h : List Call)
    → (arranged : List JobEntity) × Arranges arranged rows
      × IsOrdered (job_find (at_page query page)).order_field (job_find (at_page query page)).order
          arranged
      × (env.answer h (job_find_and_count (job_find (at_page query page)))
          ≡ ok (window (skipped page query.limit) query.limit arranged, length rows))

-- a client that reads so many pages, from a page on
unfoldable pub read_pages : Env → JobQuery → ℕ → ℕ → M (List JobEntity)
read_pages env query zero page = pure []
read_pages env query (suc n) page = do
  found ← list_jobs env (at_page query page)
  rest ← read_pages env query n (page + 1)
  pure (found.items ++ rest)

module _ (env : Env) (query : JobQuery) (rows : List JobEntity) where
  -- no two of the rows have the same value in the column that they are ordered by
  abbrev pub Apart : Type 0
  Apart = IsDistinct (sort_field query.sort_by) query.sort_order rows

  held :
      (page : ℕ) (h : List Call)
      → Holds env query rows
      → Apart
      → env.answer h (job_find_and_count (job_find (at_page query page)))
        ≡ ok (window (skipped page query.limit) query.limit rows, length rows)
  unfolding job_find
  held page h holds apart =
      let (arranged, arranges, ordered, answer) = holds page h in
      let same =
        ordered_unique (sort_field query.sort_by) query.sort_order arranged rows arranges ordered
          apart in
      answer ∙ ap (λ xs. ok (window (skipped page query.limit) query.limit xs, length rows)) same

  -- what `list` returns for a page
  abbrev page_at : ℕ → PaginatedResult JobEntity
  page_at start =
      paginated (start + 1) query.limit
        (take query.limit (drop (start * query.limit) rows), length rows)

  list_jobs_lem :
      (start : ℕ) (h : List Call)
      → Holds env query rows
      → Apart
      → list_jobs env (at_page query (start + 1)) h
        ≡ (ok (page_at start), job_find_and_count (job_find (at_page query (start + 1))) ∷ h)
  unfolding list_jobs ◌>>=◌
  list_jobs_lem start h holds apart =
      rw (held (start + 1) h holds apart, skipped_lem start query.limit) refl

  read_step :
      (n page : ℕ) (h g : List Call) {found : PaginatedResult JobEntity} {rest : List JobEntity}
      → list_jobs env (at_page query page) h ≡ (ok found, g)
      → (read_pages env query n (page + 1) g).0 ≡ ok rest
      → (read_pages env query (suc n) page h).0 ≡ ok (found.items ++ rest)
  unfolding read_pages ◌>>=◌
  read_step n page h g found rest = ground arith

  page_rest :
      (start : ℕ)
      → (page_at start).items ++ drop ((start + 1) * query.limit) rows
        ≡ drop (start * query.limit) rows
  unfolding paginated
  page_rest start =
      let later =
        drop-drop (start * query.limit) query.limit ((start + 1) * query.limit) rows
          (ground arith) in
      ap (λ xs. take query.limit (drop (start * query.limit) rows) ++ xs) (sym later)
      ∙ take-drop query.limit (drop (start * query.limit) rows)

  read_pages_lem :
      (n start : ℕ) (h : List Call)
      → Holds env query rows
      → Apart
      → drop ((start + n) * query.limit) rows ≡ []
      → (read_pages env query n (start + 1) h).0 ≡ ok (drop (start * query.limit) rows)
  unfolding read_pages ◌>>=◌
  read_pages_lem zero start h holds apart none_left =
      ap ok (sym (subst (λ j. drop j rows ≡ []) (ground arith) none_left))
  read_pages_lem (suc n) start h holds apart none_left =
      read_step n (start + 1) h _ (list_jobs_lem start h holds apart) (
        read_pages_lem n (start + 1) _ holds apart
          (subst (λ j. drop j rows ≡ []) (ground arith) none_left))
      ∙ ap ok (page_rest start)

  pub read_pages_all :
      (h : List Call)
      → 0 < query.limit
      → Holds env query rows
      → Apart
      → (read_pages env query (page_count (length rows) query.limit) 1 h).0 ≡ ok rows
  read_pages_all h p holds apart =
      let pages = page_count (length rows) query.limit in
      let enough = page_count-enough (length rows) query.limit p in
      let none_left = drop_all ((0 + pages) * query.limit) rows (omega arith) in
      let start : 0 * query.limit ≡ 0 = omega arith in
      let first : 0 + 1 ≡ 1 = omega arith in
      let all = read_pages_lem pages 0 h holds apart none_left in
      subst (λ j. (read_pages env query pages 1 h).0 ≡ ok (drop j rows)) start
        (subst (λ j. (read_pages env query pages j h).0 ≡ ok (drop (0 * query.limit) rows)) first
          all)
