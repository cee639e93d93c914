-- ===== src/Core/Log/Pages.antt =====
-- The pages of `list_logs`, put together.
use reinhardt_cloud.Base.{
  ℕ, zero, suc, ◌+◌, ◌*◌, ◌≤◌, min, Option, some, List, [], ◌++◌, length, take, drop, ◌≡◌, refl, ap,
  sym, ◌∙◌, arith, leb, Bool-cases, inl, inr, drop_past, take_all, take-add,
}
use reinhardt_cloud.Types.Log.{LogEntry, LogFilter}
use reinhardt_cloud.Core.Pagination.{
  PaginationParams, page, page_size, offset, new, page_size-bounds, le_total_pages, total_pages_of,
  max_u64,
}
use reinhardt_cloud.Core.Log.Defs.{LogBuffer, query, list_logs}

abbrev at_page : ℕ → Option ℕ → PaginationParams
at_page n size = record { page = some n; page_size = size }

offset_lem :
    (n : ℕ) (size : Option ℕ)
    → offset (at_page (suc n) size) ≡ min (n * page_size (at_page 1 size)) max_u64
unfolding offset page page_size
offset_lem n size = ground arith

page_size_lem : (n : ℕ) (size : Option ℕ) → page_size (at_page n size) ≡ page_size (at_page 1 size)
unfolding page_size
page_size_lem n size = refl

-- to stop an offset at a number that no list reaches makes no difference
drop-min {ℓ} : {A : Type ℓ} (n m : ℕ) (xs : List A) → length xs ≤ m → drop (min n m) xs ≡ drop n xs
drop-min n m xs h = elim (Bool-cases (leb n m)) [
  | inl low ↦ let same : min n m ≡ n = ground arith in ap (λ k. drop k xs) same
  | inr high ↦ drop_past (min n m) xs (ground arith) ∙ sym (drop_past n xs (ground arith))
]

module _ {Json : Type 0} (buf : LogBuffer Json) (f : LogFilter) (size : Option ℕ) where
  -- the items of the first `n` pages, one after the other
  abbrev pub first_pages : ℕ → List (LogEntry Json)
  first_pages zero = []
  first_pages (suc n) = first_pages n ++ (list_logs buf f (at_page (suc n) size)).items

  first_pages_lem :
      (n : ℕ)
      → length (query buf f) ≤ max_u64
      → first_pages n ≡ take (n * page_size (at_page 1 size)) (query buf f)
  unfolding list_logs new
  first_pages_lem zero h =
      let nothing : 0 ≡ 0 * page_size (at_page 1 size) = omega arith in
      ap (λ k. take k (query buf f)) nothing
  first_pages_lem (suc n) h =
      let each = page_size (at_page 1 size) in
      let all = query buf f in
      let next : n * each + each ≡ suc n * each = ground arith in
      let page_n : take (page_size (at_page (suc n) size))
            (drop (offset (at_page (suc n) size)) all)
          ≡ take each (drop (n * each) all) =
        ap (λ k. take k (drop (offset (at_page (suc n) size)) all)) (page_size_lem (suc n) size)
        ∙ ap (λ k. take each (drop k all)) (offset_lem n size)
        ∙ ap (take each) (drop-min (n * each) max_u64 all h) in
      ap (λ xs. xs ++ (list_logs buf f (at_page (suc n) size)).items) (first_pages_lem n h)
      ∙ ap (λ xs. take (n * each) all ++ xs) page_n
      ∙ sym (take-add (n * each) each all)
      ∙ ap (λ k. take k all) next

module _ {Json : Type 0} (buf : LogBuffer Json) (f : LogFilter) (params : PaginationParams) where
  -- If the number of matching entries is a `u64`, then for any size of a page the pages from 1 to
  -- the number of pages that a response gives, put together, are all the entries that match, in
  -- their order, each once.
  pub list_logs_complete :
      length (query buf f) ≤ max_u64
      → first_pages buf f params.page_size (list_logs buf f params).total_pages ≡ query buf f
  unfolding list_logs new page_size
  list_logs_complete h =
      let each = page_size (at_page 1 params.page_size) in
      let enough : length (query buf f) ≤ total_pages_of (length (query buf f)) each * each =
        le_total_pages (length (query buf f)) each
          (page_size-bounds (at_page 1 params.page_size)).0 in
      first_pages_lem buf f params.page_size (list_logs buf f params).total_pages h
      ∙ take_all _ (query buf f) enough
