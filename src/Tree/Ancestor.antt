-- ===== src/Tree/Ancestor.antt =====
-- The guard answers yes exactly for the ancestors.
use go_tangra_asset.Common.{
  ℕ, zero, suc, ◌<◌, String, ◌≡◌, true, some, List, [], ◌∷◌, ◌⊎◌, inl, inr, arith, subst,
  String-discrete,
}
use mathlib.Core.Logic.{◌↔◌}
use go_tangra_asset.Table.{Table, lookup, IsDistinct}
use go_tangra_asset.Memstore.Page.{length}
use go_tangra_asset.Tree.{climb, is_ancestor}
use go_tangra_asset.Tree.Depth.{HasDepth, HasDepth-length}
use go_tangra_asset.Tree.Reparent.{AllDeeper, AllDeeper-is_seen, AllDeeper-suc}

module _ {V : Type 0} (parent : V → String) where
  -- `id` is a parent on the chain of `n` parents from `k` up.
  abbrev pub IsAbove : Table V → String → ℕ → String → Type 0
  IsAbove t id zero k = ⊥
  IsAbove t id (suc n) k =
      (c : V) × (lookup k t ≡ some c) × (((parent c) ≡ id) ⊎ IsAbove t id n (parent c))

  -- In a chain that ends, the loop answers yes exactly if `id` is on it.
  climb-IsAbove :
      (t : Table V) (id : String) (n fuel : ℕ) (seen : List String) (k : String)
      → n < fuel
      → HasDepth parent t n k
      → AllDeeper parent t n seen
      → (climb parent fuel seen t id k ≡ true) ↔ IsAbove t id n k
  unfolding climb
  climb-IsAbove t id n zero seen k less h all = (ground arith, ground arith)
  climb-IsAbove t id zero (suc fuel) seen k less (inl blank) all = (ground arith, λ x. elim x [ ])
  climb-IsAbove t id zero (suc fuel) seen k less (inr gone) all = (ground arith, λ x. elim x [ ])
  climb-IsAbove t id (suc n) (suc fuel) seen k less (ne, (c, f, h)) all =
      let fresh = AllDeeper-is_seen parent t (suc n) k seen (ne, (c, f, h)) all in
      let (to, from) =
        climb-IsAbove t id n fuel (k ∷ seen) (parent c) (ground arith) h
          ((suc n, ground arith, (ne, (c, f, h))), AllDeeper-suc parent t n seen all) in
      (
        λ e. (
          c,
          f,
          elim (String-discrete (parent c) id) [
            | yes p ↦ inl p
            | no q ↦ inr (to (ground (arith, fresh, f, q, e)))
          ],
        ),
        λ x.
            let same : x.0 ≡ c = cc (f, x.1) in
            elim x.2 [
              | inl p ↦ ground (arith, fresh, f, same, p)
              | inr u ↦
                  let found = from (subst (λ (y : V). IsAbove t id n (parent y)) same u) in
                  ground (arith, fresh, f, found)
            ],
      )

  -- In a map with one row for each key, for a candidate whose chain of parents ends after `n` of them, the
  -- guard answers yes exactly if the category is one of those.
  pub is_ancestor_iff :
      (t : Table V) (id candidate : String) (n : ℕ)
      → IsDistinct t
      → HasDepth parent t n candidate
      → (is_ancestor parent t id candidate ≡ true) ↔ IsAbove t id n candidate
  unfolding is_ancestor
  is_ancestor_iff t id candidate n d h =
      let short = HasDepth-length parent n t candidate d h in
      climb-IsAbove t id n (suc (length t)) [] candidate (ground arith) h tt
