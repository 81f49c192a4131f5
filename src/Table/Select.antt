-- ===== src/Table/Select.antt =====
-- Which rows a loop over the map meets after each operation.
use go_tangra_asset.Common.{
  ◌+◌, String, ◌≡◌, refl, Bool, true, false, Option, none, some, [], ◌∷◌, arith, ⊤,
}
use go_tangra_asset.Table.{
  Table, lookup, insert, erase, some_row, find_row, find_entry, count_rows, select, erase_where,
  update_where, IsDistinct,
}

-- The row at a key, if there is one, is not among those that `p` selects.
abbrev pub Unseen : {V : Type 0} → (V → Bool) → Option V → Type 0
Unseen p none = ⊤
Unseen p (some v) = p v ≡ false

module _ {V : Type 0} (p : V → Bool) where
  pub select-insert_skip :
      (k : String) (v : V) (t : Table V)
      → p v ≡ false
      → Unseen p (lookup k t)
      → select p (insert k v t) ≡ select p t
  unfolding select insert lookup
  select-insert_skip k v [] h old = ground arith
  select-insert_skip k v (e ∷ t) h old = ground (arith, select-insert_skip k v t)

  pub select-erase_skip :
      (k : String) (t : Table V) → Unseen p (lookup k t) → select p (erase k t) ≡ select p t
  unfolding select erase lookup
  select-erase_skip k [] old = refl
  select-erase_skip k (e ∷ t) old = ground (arith, select-erase_skip k t)

  pub select-erase_where_skip :
      (q : V → Bool) (t : Table V)
      → ((v : V) → q v ≡ true → p v ≡ false)
      → select p (erase_where q t) ≡ select p t
  unfolding select erase_where
  select-erase_where_skip q [] apart = refl
  select-erase_where_skip q (e ∷ t) apart =
      ground (arith, apart e.1, select-erase_where_skip q t apart)

  pub select-update_where_skip :
      (q : V → Bool) (f : V → V) (t : Table V)
      → ((v : V) → q v ≡ true → p v ≡ false)
      → ((v : V) → q v ≡ true → p (f v) ≡ false)
      → select p (update_where q f t) ≡ select p t
  unfolding select update_where
  select-update_where_skip q f [] before_f after_f = refl
  select-update_where_skip q f (e ∷ t) before_f after_f =
      ground (arith, before_f e.1, after_f e.1, select-update_where_skip q f t before_f after_f)

  pub count_rows-insert_skip :
      (k : String) (v : V) (t : Table V)
      → p v ≡ false
      → Unseen p (lookup k t)
      → count_rows p (insert k v t) ≡ count_rows p t
  unfolding count_rows insert lookup
  count_rows-insert_skip k v [] h old = ground arith
  count_rows-insert_skip k v (e ∷ t) h old = ground (arith, count_rows-insert_skip k v t)

  pub count_rows-insert_new :
      (k : String) (v : V) (t : Table V)
      → p v ≡ true
      → lookup k t ≡ none
      → count_rows p (insert k v t) ≡ count_rows p t + 1
  unfolding count_rows insert lookup
  count_rows-insert_new k v [] h new = ground arith
  count_rows-insert_new k v (e ∷ t) h new = ground (arith, count_rows-insert_new k v t)

  pub count_rows-erase_where :
      (q : V → Bool) (t : Table V)
      → ((v : V) → p v ≡ true → q v ≡ true)
      → count_rows p (erase_where q t) ≡ 0
  unfolding count_rows erase_where
  count_rows-erase_where q [] covers = refl
  count_rows-erase_where q (e ∷ t) covers =
      ground (arith, covers e.1, count_rows-erase_where q t covers)

  -- After the loop has rewritten every row that `q` selects, none that `p` selects is left.
  pub count_rows-update_where :
      (q : V → Bool) (f : V → V) (t : Table V)
      → ((v : V) → p v ≡ true → q v ≡ true)
      → ((v : V) → q v ≡ true → p (f v) ≡ false)
      → count_rows p (update_where q f t) ≡ 0
  unfolding count_rows update_where
  count_rows-update_where q f [] covers clears = refl
  count_rows-update_where q f (e ∷ t) covers clears =
      ground (arith, covers e.1, clears e.1, count_rows-update_where q f t covers clears)

  pub some_row-count_rows : (t : Table V) → some_row p t ≡ false → count_rows p t ≡ 0
  unfolding count_rows some_row
  some_row-count_rows [] h = refl
  some_row-count_rows (e ∷ t) h = ground (arith, some_row-count_rows t)

  pub count_rows-lookup :
      (k : String) (v : V) (t : Table V) → count_rows p t ≡ 0 → lookup k t ≡ some v → p v ≡ false
  unfolding count_rows lookup
  count_rows-lookup k v [] h e = cc
  count_rows-lookup k v (x ∷ t) h e = ground (arith, count_rows-lookup k v t)

  pub count_rows-erase_skip :
      (k : String) (t : Table V) → Unseen p (lookup k t) → count_rows p (erase k t) ≡ count_rows p t
  unfolding count_rows erase lookup
  count_rows-erase_skip k [] old = refl
  count_rows-erase_skip k (e ∷ t) old = ground (arith, count_rows-erase_skip k t)

  pub find_row-find_entry :
      (t : Table V) → find_row p t ≡ elim (find_entry p t) [ none ↦ none | some e ↦ some e.1 ]
  unfolding find_row find_entry
  find_row-find_entry [] = refl
  find_row-find_entry (e ∷ t) = ground (arith, find_row-find_entry t)

  -- The entry that a search stops at is in the map, and its row passes the test.
  pub find_entry-lookup :
      (k : String) (v : V) (t : Table V)
      → IsDistinct t
      → find_entry p t ≡ some (k, v)
      → (lookup k t ≡ some v) × (p v ≡ true)
  unfolding find_entry lookup
  find_entry-lookup k v [] d e = cc
  find_entry-lookup k v (x ∷ t) d e = ground (arith, find_entry-lookup k v t d.1)

  -- Where no entry is found, no row passes the test.
  pub find_entry-none :
      (k : String) (v : V) (t : Table V) → find_entry p t ≡ none → lookup k t ≡ some v → p v ≡ false
  unfolding find_entry lookup
  find_entry-none k v [] e f = ground arith
  find_entry-none k v (x ∷ t) e f = ground (arith, find_entry-none k v t)

pub count_rows-erase_none :
    {V : Type 0} (p : V → Bool) (k : String) (t : Table V)
    → count_rows p t ≡ 0
    → count_rows p (erase k t) ≡ 0
unfolding count_rows erase
count_rows-erase_none p k [] h = refl
count_rows-erase_none p k (e ∷ t) h = ground (arith, count_rows-erase_none p k t)
