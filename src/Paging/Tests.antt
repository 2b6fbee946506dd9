-- ===== src/Paging/Tests.antt =====
-- The pages of a bucket of five entries.
use anchor_token_contracts.Base.{ℕ, ◌≡◌, refl, some, [], ◌∷◌, arith, take}
use anchor_token_contracts.Base.Buckets.{Bucket, range}
use anchor_token_contracts.Cosmwasm.{asc}
use anchor_token_contracts.Paging.{page}
use anchor_token_contracts.Paging.Pages.{drop, after, page-continues}

abbrev bucket : Bucket ℕ
bucket = (2, 20) ∷ (3, 30) ∷ (5, 50) ∷ (7, 70) ∷ (11, 110) ∷ []

first_page : page bucket (some 2) (some 2) (some asc) ≡ (3, 30) ∷ (5, 50) ∷ []
unfolding page range
first_page = refl

second_page : page bucket (some 5) (some 2) (some asc) ≡ (7, 70) ∷ (11, 110) ∷ []
unfolding page range
second_page = refl

page-continues_example :
    page bucket (some 5) (some 2) (some asc) ≡ take 2 (drop 2 (after (some 2) bucket))
unfolding range
page-continues_example = page-continues (some 2) (some 2) 1 5 50 bucket (omega arith) refl
