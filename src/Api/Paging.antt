-- ===== src/Api/Paging.antt =====
-- The pages of the list endpoints of src/api: `offset((page - 1) * per_page).limit(per_page)` of the
-- rows, the newest first. The rows of a table are in the order of their creation.
use proxysm.Base.{ℕ, zero, suc, ◌-◌, ◌*◌, List, [], ◌∷◌, ◌++◌}

module _ {A : Type 0} where
  abbrev pub drop : ℕ → List A → List A
  drop zero l = l
  drop (suc n) [] = []
  drop (suc n) (x ∷ l) = drop n l

  abbrev pub take : ℕ → List A → List A
  take zero l = []
  take (suc n) [] = []
  take (suc n) (x ∷ l) = x ∷ take n l

  abbrev pub newest_first : List A → List A
  newest_first [] = []
  newest_first (x ∷ l) = newest_first l ++ x ∷ []

  unfoldable pub page_of : ℕ → ℕ → List A → List A
  page_of page per_page rows = take per_page (drop ((page - 1) * per_page) (newest_first rows))
