-- ===== src/Invsync/Once.antt =====
-- A comparison gives an asset to one host at most.
use go_tangra_asset.Common.{
  ℕ, suc, ◌≤◌, String, ◌≡◌, refl, Bool, false, not, ◌&&◌, Option, none, some, List, [], ◌∷◌, arith,
  ◌==◌, if◌then◌else◌, ne_of_test, str_lt, Option-cases, inl, inr,
}
use go_tangra_asset.Table.{Table}
use go_tangra_asset.Memstore.Page.{insert_by, sort_by}
use go_tangra_asset.Models.{Asset}
use go_tangra_asset.Invsync.{
  Host, FieldChange, Change, Index, action_create, action_update, action_unchanged, is_claimed,
  unclaimed, change_of, match_host, diff_from, diff, build_index, diff_one, desired,
}

module _ {A : Type 0} (p : A → Bool) where
  unfoldable pub count : List A → ℕ
  count [] = 0
  count (x ∷ xs) = let rest = count xs in if p x then suc rest else rest

  count-insert_by :
      (before : A → A → Bool) (x : A) (xs : List A) → count (insert_by before x xs) ≡ count (x ∷ xs)
  unfolding count insert_by
  count-insert_by before x [] = refl
  count-insert_by before x (y ∷ ys) = ground (arith, count-insert_by before x ys)

  count-sort_by : (before : A → A → Bool) (xs : List A) → count (sort_by before xs) ≡ count xs
  unfolding count sort_by
  count-sort_by before [] = refl
  count-sort_by before (x ∷ xs) =
      ground (arith, count-sort_by before xs, count-insert_by before x (sort_by before xs))

-- The change is of the asset, and is not to create another.
abbrev pub is_of : String → Change → Bool
is_of id c = not (c.action == action_create) && c.asset_id == id

create-not : (h : Host) (id : String) → is_of id (change_of h none) ≡ false
create-not h id = ground arith

unclaimed-id :
    (claimed : List String) (o : Option Asset) (a : Asset)
    → unclaimed claimed o ≡ some a
    → is_claimed a.id claimed ≡ false
unclaimed-id claimed none a e = ground arith
unclaimed-id claimed (some b) a e = ground arith

module _ (to_lower : String → String) where
  some-is_of : (h : Host) (a : Asset) (id : String) → is_of id (change_of h (some a)) ≡ (a.id == id)
  some-is_of h a id = go (diff_one a (desired h))
    where
      go :
          (changes : Table FieldChange)
          → (not (
                (elim changes as (λ x. String) [ [] ↦ action_unchanged | _ ∷ _ ↦ action_update ])
                == action_create)
              && a.id == id)
            ≡ (a.id == id)
      go [] = ground (arith, ne_of_test action_unchanged action_create refl)
      go (x ∷ xs) = ground (arith, ne_of_test action_update action_create refl)

  diff_from-once :
      (id : String) (ix : Index) (claimed : List String) (hosts : List Host)
      → count (is_of id) (diff_from to_lower ix claimed hosts)
        ≤ (if is_claimed id claimed then 0 else 1)
  unfolding count diff_from is_claimed
  diff_from-once id ix claimed [] = ground arith
  diff_from-once id ix claimed (h ∷ hosts) =
      elim (Option-cases (unclaimed claimed (match_host to_lower ix h))) [
        | inl new ↦ rw new (ground (arith, create-not h id, diff_from-once id ix claimed hosts))
        | inr (a, old) ↦ rw old (
            ground (
              arith,
              some-is_of h a id,
              unclaimed-id claimed (match_host to_lower ix h) a old,
              diff_from-once id ix (a.id ∷ claimed) hosts,
            ))
      ]

  -- Of the changes that a comparison gives, at most one is to update an asset or to leave it as it is.
  pub diff-once :
      (id : String) (hosts : List Host) (assets : List Asset)
      → count (is_of id) (diff to_lower hosts assets) ≤ 1
  unfolding diff is_claimed
  diff-once id hosts assets = ground (
    arith,
    count-sort_by (is_of id) (λ x y. str_lt x.hostname y.hostname)
        (diff_from to_lower (build_index to_lower assets) [] hosts),
    diff_from-once id (build_index to_lower assets) [] hosts,
  )
