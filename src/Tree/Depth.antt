-- ===== src/Tree/Depth.antt =====
-- How far a node is from the top of its chain of parents.
use go_tangra_asset.Common.{
  ℕ, zero, suc, ◌<◌, ◌≤◌, String, ◌≡◌, ◌≢◌, refl, sym, ap, none, some, [], ◌∷◌, ◌⊎◌, inl, inr,
  arith, subst,
}
use go_tangra_asset.Table.{Table, lookup, erase, IsDistinct}
use go_tangra_asset.Table.Laws.{lookup-erase, erase-IsDistinct}
use go_tangra_asset.Memstore.Page.{length}

module _ {V : Type 0} (parent : V → String) where
  -- `k` is `n` parents below a root: a blank or missing parent.
  abbrev pub HasDepth : Table V → ℕ → String → Type 0
  HasDepth t zero k = (k ≡ "") ⊎ (lookup k t ≡ none)
  HasDepth t (suc n) k = (k ≢ "") × ((c : V) × (lookup k t ≡ some c) × HasDepth t n (parent c))

  pub HasDepth-unique :
      (t : Table V) (n m : ℕ) (k : String) → HasDepth t n k → HasDepth t m k → n ≡ m
  HasDepth-unique t zero zero k h g = refl
  HasDepth-unique t zero (suc m) k (inl e) (ne, (c, f, g)) = ground arith
  HasDepth-unique t zero (suc m) k (inr e) (ne, (c, f, g)) = cc
  HasDepth-unique t (suc n) zero k (ne, (c, f, g)) (inl e) = ground arith
  HasDepth-unique t (suc n) zero k (ne, (c, f, g)) (inr e) = cc
  HasDepth-unique t (suc n) (suc m) k (ne, (c, f, h)) (ne', (c', f', h')) =
      let same : c' ≡ c = cc (f, f') in
      ap suc
        (HasDepth-unique t n m (parent c) h (subst (λ (x : V). HasDepth t m (parent x)) same h'))

  -- A chain of parents that is less deep than `k` does not pass it.
  pub HasDepth-erase :
      (t : Table V) (k : String) (m : ℕ)
      → IsDistinct t
      → HasDepth t m k
      → (n : ℕ) (j : String) → n < m
      → HasDepth t n j
      → HasDepth (erase k t) n j
  HasDepth-erase t k m d deep zero j less h = elim h [
    | inl e ↦ inl e
    | inr e ↦ inr (ground (arith, lookup-erase j k t d))
  ]
  HasDepth-erase t k m d deep (suc n) j less (ne, (c, f, h)) =
      let other : j ≢ k = λ e.
        let deeper : HasDepth t m j = subst (λ x. HasDepth t m x) (sym e) deep in
        let clash = HasDepth-unique t (suc n) m j (ne, (c, f, h)) deeper in ground arith in
      (
        ne,
        (
          c,
          ground (arith, lookup-erase j k t d),
          HasDepth-erase t k m d deep n (parent c) (ground arith) h,
        ),
      )

  length-erase :
      (t : Table V) (k : String) (c : V) → lookup k t ≡ some c → suc (length (erase k t)) ≡ length t
  unfolding erase lookup
  length-erase [] k c e = cc
  length-erase (x ∷ t) k c e = ground (arith, length-erase t k c)

  -- No node is deeper than the map has rows.
  pub HasDepth-length :
      (n : ℕ) (t : Table V) (k : String) → IsDistinct t → HasDepth t n k → n ≤ length t
  HasDepth-length zero t k d h = ground arith
  HasDepth-length (suc n) t k d (ne, (c, f, h)) =
      let below = HasDepth-erase t k (suc n) d (ne, (c, f, h)) n (parent c) (ground arith) h in
      let short = HasDepth-length n (erase k t) (parent c) (erase-IsDistinct k t d) below in
      ground (arith, length-erase t k c f)
