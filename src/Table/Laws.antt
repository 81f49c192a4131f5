-- ===== src/Table/Laws.antt =====
-- What a map holds at a key after each operation.
use go_tangra_asset.Common.{
  String, ◌≡◌, ◌≢◌, ◌∙◌, refl, Bool, true, false, none, some, [], ◌∷◌, arith, ◌==◌, if◌then◌else◌,
}
use go_tangra_asset.Table.{
  Table, lookup, insert, erase, has, some_row, erase_where, update_where, IsDistinct,
}

module _ {V : Type 0} where
  pub lookup-insert :
      (j k : String) (v : V) (t : Table V)
      → lookup j (insert k v t) ≡ (if j == k then some v else lookup j t)
  unfolding lookup insert
  lookup-insert j k v [] = refl
  lookup-insert j k v (e ∷ t) = ground (arith, lookup-insert j k v t)

  pub lookup-insert_here :
      (j k : String) (v : V) (t : Table V) → j ≡ k → lookup j (insert k v t) ≡ some v
  lookup-insert_here j k v t e = lookup-insert j k v t ∙ ground arith

  pub lookup-insert_other :
      (j k : String) (v : V) (t : Table V) → j ≢ k → lookup j (insert k v t) ≡ lookup j t
  lookup-insert_other j k v t d = lookup-insert j k v t ∙ ground arith

  pub insert-IsDistinct :
      (k : String) (v : V) (t : Table V) → IsDistinct t → IsDistinct (insert k v t)
  unfolding lookup insert
  insert-IsDistinct k v [] h = (refl, tt)
  insert-IsDistinct k v (e ∷ t) h =
      ground (arith, insert-IsDistinct k v t h.1, lookup-insert e.0 k v t)

  pub lookup-erase :
      (j k : String) (t : Table V)
      → IsDistinct t
      → lookup j (erase k t) ≡ (if j == k then none else lookup j t)
  unfolding lookup erase
  lookup-erase j k [] h = ground arith
  lookup-erase j k (e ∷ t) h = ground (arith, lookup-erase j k t h.1)

  pub erase-IsDistinct : (k : String) (t : Table V) → IsDistinct t → IsDistinct (erase k t)
  unfolding lookup erase
  erase-IsDistinct k [] h = tt
  erase-IsDistinct k (e ∷ t) h = ground (arith, erase-IsDistinct k t h.1, lookup-erase e.0 k t h.1)

  pub has-lookup : (k : String) (v : V) (t : Table V) → lookup k t ≡ some v → has k t ≡ true
  unfolding has
  has-lookup k v t h = rw (h, has)

  pub lookup-has : (k : String) (t : Table V) → has k t ≡ false → lookup k t ≡ none
  unfolding has
  lookup-has k t h = ground arith

  -- A search that finds nothing has passed every row.
  pub some_row-lookup :
      (p : V → Bool) (k : String) (v : V) (t : Table V)
      → some_row p t ≡ false
      → lookup k t ≡ some v
      → p v ≡ false
  unfolding some_row lookup
  some_row-lookup p k v [] h e = cc
  some_row-lookup p k v (x ∷ t) h e = ground (arith, some_row-lookup p k v t)

  pub lookup-update_where :
      (p : V → Bool) (f : V → V) (k : String) (t : Table V)
      → lookup k (update_where p f t)
        ≡ elim (lookup k t) [ none ↦ none | some v ↦ some (if p v then f v else v) ]
  unfolding lookup update_where
  lookup-update_where p f k [] = refl
  lookup-update_where p f k (e ∷ t) = ground (arith, lookup-update_where p f k t)

  pub update_where-IsDistinct :
      (p : V → Bool) (f : V → V) (t : Table V) → IsDistinct t → IsDistinct (update_where p f t)
  unfolding lookup update_where
  update_where-IsDistinct p f [] h = tt
  update_where-IsDistinct p f (e ∷ t) h =
      ground (arith, update_where-IsDistinct p f t h.1, lookup-update_where p f e.0 t)

  pub lookup-erase_where :
      (p : V → Bool) (k : String) (t : Table V)
      → IsDistinct t
      → lookup k (erase_where p t)
        ≡ elim (lookup k t) [ none ↦ none | some v ↦ if p v then none else some v ]
  unfolding lookup erase_where
  lookup-erase_where p k [] h = refl
  lookup-erase_where p k (e ∷ t) h = ground (arith, lookup-erase_where p k t h.1)

  pub erase_where-IsDistinct :
      (p : V → Bool) (t : Table V) → IsDistinct t → IsDistinct (erase_where p t)
  unfolding lookup erase_where
  erase_where-IsDistinct p [] h = tt
  erase_where-IsDistinct p (e ∷ t) h =
      ground (arith, erase_where-IsDistinct p t h.1, lookup-erase_where p e.0 t h.1)
