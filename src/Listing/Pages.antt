-- ===== src/Listing/Pages.antt =====
-- The arithmetic of the pages: their offsets and their number.
use native.Mathlib.Nat.{div-lt_iff_lt-mul, le-div_iff_mul-le, lt-div-mul-add, div-mul-le_self}
use realtime_ops_platform.Prelude.{
  ℕ, zero, suc, ◌+◌, ◌-◌, ◌*◌, ◌/◌, ◌≤◌, ◌<◌, ◌≡◌, arith, pos, Bool-cases, leb, inl, inr, sym, ◌∙◌,
}
use realtime_ops_platform.Listing.{skipped, page_count}

-- Row `i`, counted from 0, is on a page, counted from 1.
abbrev pub OnPage : ℕ → ℕ → ℕ → Type 0
OnPage page limit i =
    (offset : ℕ) × (skipped page limit ≡ pos offset) × (offset ≤ i) × (i < offset + limit)

pub skipped_lem : (n limit : ℕ) → skipped (n + 1) limit ≡ pos (n * limit)
unfolding skipped
skipped_lem n limit = ground arith

-- enough pages for all rows
pub page_count-enough : (total limit : ℕ) → 0 < limit → total ≤ page_count total limit * limit
unfolding page_count
page_count-enough total limit p =
    let full : total + limit - 1 < (total + limit - 1) / limit * limit + limit = lt-div-mul-add p in
    elim (Bool-cases (leb 1 ((total + limit - 1) / limit))) [
      | inl more ↦ ground arith
      | inr least ↦ ground arith
    ]

-- Every row of a list has a page, from the first to the last that `totalPages` counts.
pub pages_cover :
    (total limit i : ℕ)
    → 0 < limit
    → i < total
    → (page : ℕ) × (1 ≤ page) × (page ≤ page_count total limit) × OnPage page limit i
pages_cover total limit i p below =
    let enough = page_count-enough total limit p in
    let before : i / limit < page_count total limit = (div-lt_iff_lt-mul p).1 (omega arith) in
    (
      i / limit + 1,
      omega arith,
      omega arith,
      (i / limit * limit, skipped_lem (i / limit) limit, div-mul-le_self i limit, lt-div-mul-add p),
    )

pos_injective : {m n : ℕ} → pos m ≡ pos n → m ≡ n
pos_injective e = cc

skipped-suc : (n limit : ℕ) → skipped (suc n) limit ≡ pos (n * limit)
unfolding skipped
skipped-suc n limit = ground arith

OnPage-div : (page limit i : ℕ) → 0 < limit → 1 ≤ page → OnPage page limit i → page ≡ i / limit + 1
OnPage-div zero limit i p least _ = omega arith
OnPage-div (suc n) limit i p least (offset, e, lower, upper) =
    let start : offset ≡ n * limit = pos_injective (sym e ∙ skipped-suc n limit) in
    let least_page : n ≤ i / limit = (le-div_iff_mul-le p).1 (omega arith) in
    let next : i / limit < n + 1 = (div-lt_iff_lt-mul p).1 (ground arith) in omega arith

-- No row is on two pages, and none is on a page after the last that `totalPages` counts.
pub pages_apart :
    (total limit i page other : ℕ)
    → 0 < limit
    → i < total
    → 1 ≤ page
    → 1 ≤ other
    → OnPage page limit i
    → OnPage other limit i
    → (page ≡ other) × (page ≤ page_count total limit)
pages_apart total limit i page other p below first second here there =
    let enough = page_count-enough total limit p in
    let before : i / limit < page_count total limit = (div-lt_iff_lt-mul p).1 (omega arith) in
    let q = OnPage-div page limit i p first here in
    let r = OnPage-div other limit i p second there in (omega arith, omega arith)
