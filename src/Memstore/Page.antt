-- ===== src/Memstore/Page.antt =====
-- internal/memstore/memstore.go, `paginate`: newest first by id, after the cursor, up to the limit.
-- `sort.Slice` is not stable; ids being distinct, every sort gives the list that this one does.
pub mod Bounds
use go_tangra_asset.Common.{
  ℕ, zero, suc, String, Bool, ◌&&◌, List, [], ◌∷◌, ℤ, pos, pos_part, ltb_ℤ, ◌==◌, if◌then◌else◌,
  str_lt,
}

module _ {A : Type 0} where
  abbrev pub length : List A → ℕ
  length [] = 0
  length (x ∷ xs) = suc (length xs)

  abbrev pub take : ℕ → List A → List A
  take zero xs = []
  take (suc n) [] = []
  take (suc n) (x ∷ xs) = x ∷ take n xs

  -- `insert_by before x xs` puts `x` in front of the first element that is not before it.
  unfoldable pub insert_by : (A → A → Bool) → A → List A → List A
  insert_by before x [] = x ∷ []
  insert_by before x (y ∷ ys) =
      let rest = y ∷ ys in
      let after = insert_by before x ys in if before y x then y ∷ after else x ∷ rest

  -- sort.Slice(items, less)
  unfoldable pub sort_by : (A → A → Bool) → List A → List A
  sort_by before [] = []
  sort_by before (x ∷ xs) = insert_by before x (sort_by before xs)

  unfoldable pub keep : (A → Bool) → List A → List A
  keep p [] = []
  keep p (x ∷ xs) = let rest = keep p xs in if p x then x ∷ rest else rest

  -- `if limit > 0 && len(items) > limit { items = items[:limit] }`
  unfoldable pub cut : ℤ → List A → List A
  cut limit items =
      if ltb_ℤ (pos 0) limit && ltb_ℤ limit (pos (length items))
      then take (pos_part limit) items
      else items

  -- `id(a) > id(b)`
  abbrev pub newer : (A → String) → A → A → Bool
  newer id a b = str_lt (id b) (id a)

  unfoldable pub paginate : (A → String) → String → ℤ → List A → List A
  unfolding cut keep sort_by
  paginate id cursor limit items =
      let sorted = sort_by (newer id) items in
      cut limit (if cursor == "" then sorted else keep (λ x. str_lt (id x) cursor) sorted)
