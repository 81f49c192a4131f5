-- ===== src/Table.antt =====
-- A Go map from ids to rows, as the association list of its entries, in some order.
pub mod Laws
pub mod Select
pub mod Sound
use go_tangra_asset.Common.{
  ℕ, suc, String, ◌≡◌, Bool, true, false, Option, none, some, List, [], ◌∷◌, ⊤, ◌==◌, if◌then◌else◌,
}

abbrev pub Table : Type 0 → Type 0
Table V = List (String × V)

module _ {V : Type 0} where
  -- `m[k]`
  unfoldable pub lookup : String → Table V → Option V
  lookup k [] = none
  lookup k ((j, v) ∷ t) = if k == j then some v else lookup k t

  -- `m[k] = v`
  unfoldable pub insert : String → V → Table V → Table V
  insert k v [] = (k, v) ∷ []
  insert k v (e ∷ t) = if k == e.0 then (k, v) ∷ t else e ∷ insert k v t

  -- `delete(m, k)`
  unfoldable pub erase : String → Table V → Table V
  erase k [] = []
  erase k (e ∷ t) = if k == e.0 then t else e ∷ erase k t

  -- `_, ok := m[k]`
  unfoldable pub has : String → Table V → Bool
  unfolding lookup
  has k t = elim (lookup k t) [ none ↦ false | some _ ↦ true ]

  -- `for _, v := range m { if p(v) { return } }`
  unfoldable pub some_row : (V → Bool) → Table V → Bool
  some_row p [] = false
  some_row p (e ∷ t) = if p e.1 then true else some_row p t

  -- the first row that the loop meets
  unfoldable pub find_row : (V → Bool) → Table V → Option V
  find_row p [] = none
  find_row p (e ∷ t) = if p e.1 then some e.1 else find_row p t

  -- the entry of that row
  unfoldable pub find_entry : (V → Bool) → Table V → Option (String × V)
  find_entry p [] = none
  find_entry p (e ∷ t) = if p e.1 then some e else find_entry p t

  -- `for _, v := range m { if p(v) { n++ } }`
  unfoldable pub count_rows : (V → Bool) → Table V → ℕ
  count_rows p [] = 0
  count_rows p (e ∷ t) = let rest = count_rows p t in if p e.1 then suc rest else rest

  -- `for _, v := range m { if p(v) { out = append(out, v) } }`
  unfoldable pub select : (V → Bool) → Table V → List V
  select p [] = []
  select p (e ∷ t) = let rest = select p t in if p e.1 then e.1 ∷ rest else rest

  -- `for k, v := range m { if p(v) { delete(m, k) } }`
  unfoldable pub erase_where : (V → Bool) → Table V → Table V
  erase_where p [] = []
  erase_where p (e ∷ t) = let rest = erase_where p t in if p e.1 then rest else e ∷ rest

  -- `for k, v := range m { if p(v) { m[k] = f(v) } }`
  unfoldable pub update_where : (V → Bool) → (V → V) → Table V → Table V
  update_where p f [] = []
  update_where p f (e ∷ t) = (e.0, if p e.1 then f e.1 else e.1) ∷ update_where p f t

-- A map has one entry for each key.
abbrev pub IsDistinct : {V : Type 0} → Table V → Type 0
IsDistinct [] = ⊤
IsDistinct ((k, v) ∷ t) = (lookup k t ≡ none) × IsDistinct t
