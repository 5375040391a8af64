-- ===== src/Org/Slug.antt =====
-- `_unique_slug` of app/services/org_service.py: its loop and its result.
use text.Mathlib.TextLemmas.{append_cancel_left, length-append}
use Prim.Native.String.{count}
use mathlib.Core.List.{List, [], ◌∷◌}
use saas_backend_fastapi.Prelude.{
  ℕ, zero, suc, ◌≤◌, ◌<◌, String, ◌++◌, ◌≡◌, ◌≢◌, refl, sym, ap, ◌∙◌, true, false, arith, eq_iff,
  inl, inr,
}
use saas_backend_fastapi.Prelude.Rows.{
  select, length, delete_where, select-delete_other, short-cases, length-delete-add-select,
}
use saas_backend_fastapi.Errors.{Result, ok}
use saas_backend_fastapi.Models.{Organization}
use saas_backend_fastapi.Text.{decimal}
use saas_backend_fastapi.Text.Decimal.{decimal_injective}
use saas_backend_fastapi.World.{Database, scalar_one_or_none}
use saas_backend_fastapi.Repositories.Organizations
use saas_backend_fastapi.Org.{unique_slug_loop, unique_slug}

-- the UNIQUE constraint on `slug`
abbrev pub SlugsAreUnique : Database → Type 0
SlugsAreUnique db = (s : String) → length (select (Organizations.by_slug s) db.organizations) ≤ 1

-- the slugs that the loop tries, in order
abbrev pub candidate : String → ℕ → String
candidate base zero = base
candidate base (suc n) = base ++ ("-" ++ decimal (suc n))

base-ne-numbered : (base : String) (n : ℕ) → base ≢ base ++ ("-" ++ decimal n)
base-ne-numbered base n e =
    omega (arith, ap count e, length-append base ("-" ++ decimal n), length-append "-" (decimal n))

candidate_injective : (base : String) (i j : ℕ) → candidate base i ≡ candidate base j → i ≡ j
candidate_injective base zero zero e = refl
candidate_injective base zero (suc j) e = absurd (base-ne-numbered base (suc j) e)
candidate_injective base (suc i) zero e = absurd (base-ne-numbered base (suc i) (sym e))
candidate_injective base (suc i) (suc j) e =
    decimal_injective (suc i) (suc j) (append_cancel_left "-" _ _ (append_cancel_left base _ _ e))

test_apart :
    (s t : String)
    → s ≢ t
    → (o : Organization) → Organizations.by_slug s o ≡ true
    → Organizations.by_slug t o ≡ false
test_apart s t ne o h = ground (arith, eq_iff o.slug s, eq_iff o.slug t)

-- `left` has still every row whose slug is a candidate that was not tried.
abbrev StillThere : String → ℕ → List Organization → List Organization → Type 0
StillThere base k left orgs =
    (j : ℕ)
    → k ≤ j
    → select (Organizations.by_slug (candidate base j)) left
      ≡ select (Organizations.by_slug (candidate base j)) orgs

abbrev Found : Database → Result String → Type 0
Found db r = (s : String) × (r ≡ ok s) × (select (Organizations.by_slug s) db.organizations ≡ [])

module _ (db : Database) (base : String) where
  loop_free :
      (fuel k : ℕ) (slug : String)
      → select (Organizations.by_slug slug) db.organizations ≡ []
      → unique_slug_loop (suc fuel) db base slug k ≡ ok slug
  unfolding unique_slug_loop Organizations.get_by_slug scalar_one_or_none
  loop_free fuel k slug e = ground arith

  loop_taken :
      (fuel k : ℕ) (slug : String) (o : Organization)
      → select (Organizations.by_slug slug) db.organizations ≡ o ∷ []
      → unique_slug_loop (suc fuel) db base slug k
        ≡ unique_slug_loop fuel db base (base ++ ("-" ++ decimal k)) (suc k)
  unfolding unique_slug_loop Organizations.get_by_slug scalar_one_or_none
  loop_taken fuel k slug o e = ground arith

  -- The slug in hand is candidate number `k`, and the counter is `k + 1`.
  loop_total :
      (fuel k : ℕ) (left : List Organization)
      → SlugsAreUnique db
      → StillThere base k left db.organizations
      → length left < fuel
      → Found db (unique_slug_loop fuel db base (candidate base k) (suc k))
  loop_total zero k left unique there h = absurd (omega arith)
  loop_total (suc fuel) k left unique there h =
      let slug = candidate base k in
      let test = Organizations.by_slug slug in
      elim (short-cases (select test db.organizations) (unique slug)) [
        | inl unused ↦ (slug, loop_free fuel (suc k) slug unused, unused)
        | inr (o, taken) ↦ rw (loop_taken fuel (suc k) slug o taken) (
            loop_total fuel (suc k) (delete_where test left) unique
              (λ j lt.
                select-delete_other (Organizations.by_slug (candidate base j)) test
                  (test_apart (candidate base j) slug
                    (λ e. absurd (omega (arith, candidate_injective base j k e))))
                  left
                ∙ there j (omega arith))
              (omega (
                arith,
                length-delete-add-select test left,
                ap length (there k (omega arith)),
                ap length taken,
              )))
      ]

-- With UNIQUE slugs in the table the loop ends within one round more than there are organizations,
-- without an error, and the slug that it returns is in use by no organization.
pub unique_slug_total :
    (base : String) (db : Database)
    → SlugsAreUnique db
    → (s : String) × (unique_slug base db ≡ ok s)
      × (select (Organizations.by_slug s) db.organizations ≡ [])
unfolding unique_slug
unique_slug_total base db unique =
    loop_total db base (suc (length db.organizations)) 0 db.organizations unique (λ j lt. refl)
      (omega arith)
