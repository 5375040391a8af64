-- ===== src/Pagination/Examples.antt =====
-- Five rows, two at a time.
use saas_backend_fastapi.Prelude.{
  ℕ, ◌+◌, ◌<◌, ◌↔◌, true, ◌≡◌, refl, none, some, List, [], ◌∷◌, arith,
}
use saas_backend_fastapi.Prelude.Rows.{drop, length}
use saas_backend_fastapi.Pagination.{pagination}
use saas_backend_fastapi.Pagination.Pages.{page, read_all, read_all_lem}

abbrev rows : List ℕ
rows = 1 ∷ 2 ∷ 3 ∷ 4 ∷ 5 ∷ []

read_all_lem_example :
    (((page 2 0 rows).has_more ≡ true) ↔ (0 + 2 < length rows)) × (read_all 6 2 0 rows ≡ some rows)
unfolding drop
read_all_lem_example = read_all_lem 5 2 0 rows (omega arith) (omega arith)

default_page : pagination none none ≡ some (record { limit = 20; offset = 0 })
unfolding pagination
default_page = refl

too_large : pagination (some 101) none ≡ none
unfolding pagination
too_large = refl
