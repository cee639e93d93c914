-- ===== src/Core/Pagination.antt =====
-- crates/reinhardt-cloud-core/src/pagination.rs: the pages of a list. The numbers are `u64`.
use reinhardt_cloud.Base.{
  ℕ, ◌+◌, ◌-◌, ◌*◌, ◌/◌, ◌^◌, ◌≤◌, min, max, Option, none, some, List, nat_eq, ◌==◌, if◌then◌else◌,
  arith,
}

abbrev pub default_page : ℕ
default_page = 1

abbrev pub default_page_size : ℕ
default_page_size = 20

abbrev pub max_page_size : ℕ
max_page_size = 100

abbrev pub max_u64 : ℕ
max_u64 = 2 ^ 64 - 1

pub record PaginationParams : Type 0 where
  pub page : Option ℕ
  pub page_size : Option ℕ

-- `unwrap_or`
abbrev unwrap_or : ℕ → Option ℕ → ℕ
unwrap_or d none = d
unwrap_or d (some n) = n

-- the effective page number, from 1
unfoldable pub page : PaginationParams → ℕ
page params = max (unwrap_or default_page params.page) 1

-- the effective size of a page: `clamp(1, MAX_PAGE_SIZE)`
unfoldable pub page_size : PaginationParams → ℕ
page_size params = min (max (unwrap_or default_page_size params.page_size) 1) max_page_size

unfoldable pub offset : PaginationParams → ℕ
offset params = min ((page params - 1) * page_size params) max_u64

pub record PaginatedResponse {ℓ} (T : Type ℓ) : Type ℓ where
  pub items : List T
  pub total : ℕ
  pub page : ℕ
  pub page_size : ℕ
  pub total_pages : ℕ

-- `total.div_ceil(page_size)`
unfoldable pub total_pages_of : ℕ → ℕ → ℕ
total_pages_of total size = if total == 0 then 0 else (total + size - 1) / size

unfoldable pub new {ℓ} : {T : Type ℓ} → List T → ℕ → PaginationParams → PaginatedResponse T
unfolding page page_size total_pages_of
new items total params = record {
  items = items;
  total = total;
  page = page params;
  page_size = page_size params;
  total_pages = total_pages_of total (page_size params);
}

pub page_size-bounds :
    (params : PaginationParams) → (1 ≤ page_size params) × (page_size params ≤ max_page_size)
unfolding page_size
page_size-bounds params = ground arith

pub le_total_pages : (total size : ℕ) → 1 ≤ size → total ≤ total_pages_of total size * size
unfolding total_pages_of
le_total_pages total size h = ground arith
