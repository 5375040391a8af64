-- ===== src/Pagination/Pages.antt =====
-- The pages of a list, read one after the other by `has_more` of app/lib/pagination.py.
use saas_backend_fastapi.Prelude.{
  ℕ, zero, suc, ◌+◌, ◌≤◌, ◌<◌, ◌≡◌, ◌↔◌, refl, ap, sym, ◌∙◌, true, false, List, arith, inl, inr,
  Option, none, some, Bool-cases, ltb, leb, leb→le, gt_of_leb, ltb→lt, if◌then◌else◌,
}
use mathlib.Core.List.{◌++◌}
use saas_backend_fastapi.Prelude.Rows.{
  length, take, drop, length-take, take_all, length-drop, take-append-drop, drop-drop,
}
use saas_backend_fastapi.Pagination.{PagedResponse, build}

module _ {ℓ} {A : Type ℓ} where
  -- `SELECT ... LIMIT limit OFFSET offset` of the rows, and `SELECT count(*)`, in the envelope
  abbrev pub page : ℕ → ℕ → List A → PagedResponse A
  page limit offset xs = build (take limit (drop offset xs)) (length xs) limit offset

  -- The envelope says that there is more exactly where a row stands past the page.
  pub has_more_iff :
      (limit offset : ℕ) (xs : List A)
      → ((page limit offset xs).has_more ≡ true) ↔ (offset + limit < length xs)
  unfolding build
  has_more_iff limit offset xs =
      let left = length-drop offset xs in
      let d = drop offset xs in
      elim (Bool-cases (leb limit (length d))) [
        | inl full ↦
            let items = length-take limit d (leb→le limit (length d) full) in
            (
              λ h. omega (arith, ltb→lt (offset + length (take limit d)) (length xs) h),
              λ h. ground arith,
            )
        | inr short ↦
            let none_past = gt_of_leb limit (length d) short in
            let items : length (take limit d) ≡ length d =
              ap length (take_all limit d (omega arith)) in
            (
              λ h. absurd (omega (arith, ltb→lt (offset + length (take limit d)) (length xs) h)),
              λ h. absurd (omega arith),
            )
      ]

  abbrev followed : List A → Option (List A) → Option (List A)
  followed items none = none
  followed items (some rest) = some (items ++ rest)

  -- a client that reads page after page, from the offset, while there is more
  -- in at most so many rounds
  unfoldable pub read_all : ℕ → ℕ → ℕ → List A → Option (List A)
  unfolding build take drop
  read_all zero limit offset xs = none
  read_all (suc fuel) limit offset xs =
      let rest = read_all fuel limit (offset + limit) xs in
      let answer = page limit offset xs in
      if answer.has_more then followed answer.items rest else some answer.items

  -- what a page of the last rows leaves
  last_page :
      (limit offset : ℕ) (xs : List A)
      → (page limit offset xs).has_more ≡ false
      → take limit (drop offset xs) ≡ drop offset xs
  last_page limit offset xs h =
      let more = has_more_iff limit offset xs in
      let left = length-drop offset xs in
      elim (Bool-cases (ltb (offset + limit) (length xs))) [
        | inl past ↦ let wrong = more.1 (ltb→lt (offset + limit) (length xs) past) in absurd (cc)
        | inr fits ↦ take_all limit (drop offset xs) (ground arith)
      ]

  read_all_rows :
      (fuel limit offset : ℕ) (xs : List A)
      → 1 ≤ limit
      → length xs ≤ offset + fuel
      → read_all (suc fuel) limit offset xs ≡ some (drop offset xs)
  unfolding read_all build
  read_all_rows zero limit offset xs some_rows enough =
      elim (Bool-cases (page limit offset xs).has_more) [
        | inl more ↦ let past = (has_more_iff limit offset xs).0 more in absurd (omega arith)
        | inr no_more ↦ rw no_more (ap some (last_page limit offset xs no_more))
      ]
  read_all_rows (suc fuel) limit offset xs some_rows enough =
      elim (Bool-cases (page limit offset xs).has_more) [
        | inl more ↦
            let rest = read_all_rows fuel limit (offset + limit) xs some_rows (omega arith) in
            rw more (
              ap (followed (take limit (drop offset xs)))
                (rest ∙ ap some (sym (drop-drop limit offset (offset + limit) xs refl)))
              ∙ ap some (take-append-drop limit (drop offset xs)))
        | inr no_more ↦ rw no_more (ap some (last_page limit offset xs no_more))
      ]

  -- The envelope of a page says that there is more exactly where a row stands past the page. So a
  -- client that asks for page after page while `has_more` holds stops by itself, in as many rounds
  -- as rows are left and one, and has read every row from its offset on, once and in order; the
  -- limit is one or more.
  pub read_all_lem :
      (fuel limit offset : ℕ) (xs : List A)
      → 1 ≤ limit
      → length xs ≤ offset + fuel
      → (((page limit offset xs).has_more ≡ true) ↔ (offset + limit < length xs))
        × (read_all (suc fuel) limit offset xs ≡ some (drop offset xs))
  read_all_lem fuel limit offset xs some_rows enough =
      (has_more_iff limit offset xs, read_all_rows fuel limit offset xs some_rows enough)
