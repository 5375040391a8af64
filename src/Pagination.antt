-- ===== src/Pagination.antt =====
-- app/lib/pagination.py: the parameters of a page and the envelope of its items. No endpoint of the
-- program uses them yet.
mod Examples
pub mod Pages
use saas_backend_fastapi.Prelude.{
  ℕ, ◌+◌, Bool, ◌&&◌, Option, none, some, List, leb, ltb, if◌then◌else◌,
}
use saas_backend_fastapi.Prelude.Rows.{length}
use saas_backend_fastapi.Config.{default_limit, max_limit}

pub record PagedResponse {ℓ} (A : Type ℓ) : Type ℓ where
  pub items : List A
  pub total : ℕ
  pub limit : ℕ
  pub offset : ℕ
  pub has_more : Bool

-- `PagedResponse.build`
unfoldable pub build {ℓ} : {A : Type ℓ} → List A → ℕ → ℕ → ℕ → PagedResponse A
build items total limit offset = record {
  items = items;
  total = total;
  limit = limit;
  offset = offset;
  has_more = ltb (offset + length items) total;
}

pub record PaginationParams : Type 0 where
  pub limit : ℕ
  pub offset : ℕ

abbrev or_else : Option ℕ → ℕ → ℕ
or_else none n = n
or_else (some m) n = m

-- `PaginationParams`: the query parameters, or a 422; `offset` is no negative number by its type
unfoldable pub pagination : Option ℕ → Option ℕ → Option PaginationParams
pagination limit offset =
    let l = or_else limit default_limit in
    if leb 1 l && leb l max_limit
    then some (record { limit = l; offset = or_else offset 0 })
    else none
