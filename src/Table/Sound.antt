-- ===== src/Table/Sound.antt =====
-- The invariant of a map of rows: one entry for each key, each row under its own id, and no two rows
-- that a unique index forbids.
use go_tangra_asset.Common.{
  String, ◌≡◌, Bool, true, false, not, ◌&&◌, some, [], arith, ◌==◌, Option-cases, inl, inr, ◌⊎◌,
}
use go_tangra_asset.Table.{
  Table, lookup, insert, erase, some_row, erase_where, update_where, IsDistinct,
}
use go_tangra_asset.Table.Laws.{
  lookup-insert, insert-IsDistinct, lookup-erase, erase-IsDistinct, some_row-lookup,
  lookup-update_where, update_where-IsDistinct, lookup-erase_where, erase_where-IsDistinct,
}

-- `same v w` is the test of the unique index, and `id_of` the id in the row.
pub record SoundParts {V : Type 0} (id_of : V → String) (same : V → V → Bool) (t : Table V)
    : Type 0 where
  pub distinct : IsDistinct t
  pub keyed : (k : String) (v : V) → lookup k t ≡ some v → id_of v ≡ k
  pub unique :
      (j k : String) (v w : V) → lookup j t ≡ some v → lookup k t ≡ some w → same v w ≡ true → j ≡ k

-- The same, shut: a call's proof handles it as a whole.
pub IsSound : {V : Type 0} → (V → String) → (V → V → Bool) → Table V → Type 0
IsSound id_of same t = SoundParts id_of same t

module _ {V : Type 0} (id_of : V → String) (same : V → V → Bool) where
  pub empty-IsSound : IsSound id_of same []
  unfolding lookup IsSound
  empty-IsSound = record { distinct = tt; keyed = λ k v e. cc; unique = λ j k v w e f s. cc }

  -- Every row found in the new map was there before, under the same key.
  pub sub-IsSound :
      (t t' : Table V)
      → IsDistinct t'
      → ((k : String) (v : V) → lookup k t' ≡ some v → lookup k t ≡ some v)
      → IsSound id_of same t
      → IsSound id_of same t'
  unfolding IsSound
  sub-IsSound t t' d sub s = record {
    distinct = d;
    keyed = λ k v e. s.keyed k v (sub k v e);
    unique = λ j k v w e f g. s.unique j k v w (sub j v e) (sub k w f) g;
  }

  pub erase-IsSound :
      (k : String) (t : Table V) → IsSound id_of same t → IsSound id_of same (erase k t)
  unfolding IsSound
  erase-IsSound k t s =
      sub-IsSound t (erase k t) (erase-IsDistinct k t s.distinct)
        (λ j v e. ground (arith, lookup-erase j k t s.distinct)) s

  pub erase_where-IsSound :
      (p : V → Bool) (t : Table V) → IsSound id_of same t → IsSound id_of same (erase_where p t)
  unfolding IsSound
  erase_where-IsSound p t s =
      sub-IsSound t (erase_where p t) (erase_where-IsDistinct p t s.distinct)
        (λ j v e. ground (arith, lookup-erase_where p j t s.distinct)) s

  -- A row that agrees with no row under another key can be put at its id.
  pub insert-IsSound :
      (k : String) (v : V) (t : Table V)
      → ((x y : V) → same x y ≡ true → same y x ≡ true)
      → ((j : String) (w : V) → lookup j t ≡ some w → j ≡ k ⊎ (same v w ≡ false))
      → id_of v ≡ k
      → IsSound id_of same t
      → IsSound id_of same (insert k v t)
  unfolding IsSound
  insert-IsSound k v t symmetric apart e s = record {
    distinct = insert-IsDistinct k v t s.distinct;
    keyed = λ j w f. ground (arith, lookup-insert j k v t, s.keyed j w);
    unique = λ i j x y f g h. ground (
      arith,
      lookup-insert i k v t,
      lookup-insert j k v t,
      s.unique i j x y,
      apart i x,
      apart j y,
      symmetric x y,
    );
  }

  pub insert_new-IsSound :
      (k : String) (v : V) (t : Table V)
      → ((x y : V) → same x y ≡ true → same y x ≡ true)
      → some_row (same v) t ≡ false
      → id_of v ≡ k
      → IsSound id_of same t
      → IsSound id_of same (insert k v t)
  insert_new-IsSound k v t symmetric guard =
      insert-IsSound k v t symmetric (λ j w e. inr (some_row-lookup (same v) j w t guard e))

  pub insert_over-IsSound :
      (k : String) (v : V) (t : Table V)
      → ((x y : V) → same x y ≡ true → same y x ≡ true)
      → some_row (λ o. not (id_of o == k) && same v o) t ≡ false
      → id_of v ≡ k
      → IsSound id_of same t
      → IsSound id_of same (insert k v t)
  unfolding IsSound
  insert_over-IsSound k v t symmetric guard e s =
      insert-IsSound k v t symmetric
        (λ j w f.
          ground (arith, some_row-lookup (λ o. not (id_of o == k) && same v o) j w t, s.keyed j w))
        e s

  -- An update that touches neither the id nor what the index reads.
  pub update_where-IsSound :
      (p : V → Bool) (f : V → V) (t : Table V)
      → ((v : V) → id_of (f v) ≡ id_of v)
      → ((v w : V) → same (f v) w ≡ same v w)
      → ((v w : V) → same v (f w) ≡ same v w)
      → IsSound id_of same t
      → IsSound id_of same (update_where p f t)
  unfolding IsSound
  update_where-IsSound p f t ids left right s = record {
    distinct = update_where-IsDistinct p f t s.distinct;
    keyed = λ k v e. elim (Option-cases (lookup k t)) [
      | inl gone ↦ ground (arith, lookup-update_where p f k t)
      | inr (x, found) ↦ ground (arith, lookup-update_where p f k t, s.keyed k x, ids x)
    ];
    unique = λ j k v w e g h. elim (Option-cases (lookup j t)) [
      | inl gone ↦ ground (arith, lookup-update_where p f j t)
      | inr (x, found) ↦ elim (Option-cases (lookup k t)) [
        | inl gone ↦ ground (arith, lookup-update_where p f k t)
        | inr (y, found') ↦ ground (
          arith,
          lookup-update_where p f j t,
          lookup-update_where p f k t,
          s.unique j k x y,
          left x y,
          right x y,
          left x (f y),
        )
      ]
    ];
  }

  -- What the invariant gives to its users.
  pub parts : (t : Table V) → IsSound id_of same t → SoundParts id_of same t
  unfolding IsSound
  parts t s = s
