-- ===== src/Tree/Reparent.antt =====
-- A new parent that the guard lets through leaves the tree without cycles.
use go_tangra_asset.Common.{
  ℕ, zero, suc, ◌<◌, String, ◌≡◌, ◌≢◌, refl, sym, false, some, List, [], ◌∷◌, ⊤, ◌⊎◌, inl, inr,
  arith, subst, String-discrete,
}
use go_tangra_asset.Table.{Table, lookup, insert, IsDistinct}
use go_tangra_asset.Table.Laws.{lookup-insert, insert-IsDistinct}
use go_tangra_asset.Memstore.Page.{length}
use go_tangra_asset.Tree.{nodes_from, nodes_of, is_seen, climb, is_ancestor}
use go_tangra_asset.Tree.Depth.{HasDepth, HasDepth-unique, HasDepth-length}

module _ {V : Type 0} (parent : V → String) where
  -- Every chain of parents ends.
  unfoldable pub IsAcyclic : Table V → Type 0
  IsAcyclic t = (k : String) → (n : ℕ) × HasDepth parent t n k

  -- No node of the chain from `k` up has the parent `id`.
  abbrev Avoids : Table V → String → ℕ → String → Type 0
  Avoids t id zero k = ⊤
  Avoids t id (suc n) k =
      (c : V) → lookup k t ≡ some c → ((parent c) ≢ id) × Avoids t id n (parent c)

  -- What the loop has seen is deeper than where it is.
  abbrev pub AllDeeper : Table V → ℕ → List String → Type 0
  AllDeeper t n [] = ⊤
  AllDeeper t n (x ∷ xs) = ((m : ℕ) × (n < m) × HasDepth parent t m x) × AllDeeper t n xs

  pub AllDeeper-is_seen :
      (t : Table V) (n : ℕ) (k : String) (seen : List String)
      → HasDepth parent t n k
      → AllDeeper t n seen
      → is_seen k seen ≡ false
  unfolding is_seen
  AllDeeper-is_seen t n k [] h all = refl
  AllDeeper-is_seen t n k (x ∷ xs) h ((m, less, deep), all) =
      let rest = AllDeeper-is_seen t n k xs h all in
      let other : x ≢ k = λ e.
        let same = HasDepth-unique parent t n m k h (subst (λ y. HasDepth parent t m y) e deep) in
        ground arith in
      ground (arith, rest, other)

  pub AllDeeper-suc :
      (t : Table V) (n : ℕ) (seen : List String) → AllDeeper t (suc n) seen → AllDeeper t n seen
  AllDeeper-suc t n [] all = tt
  AllDeeper-suc t n (x ∷ xs) ((m, less, deep), all) =
      ((m, ground arith, deep), AllDeeper-suc t n xs all)

  -- The loop that answers no has met every node of the chain.
  climb-Avoids :
      (t : Table V) (id : String) (n fuel : ℕ) (seen : List String) (k : String)
      → n < fuel
      → HasDepth parent t n k
      → AllDeeper t n seen
      → climb parent fuel seen t id k ≡ false
      → Avoids t id n k
  unfolding climb
  climb-Avoids t id zero fuel seen k less h all stops = tt
  climb-Avoids t id (suc n) zero seen k less h all stops = ground arith
  climb-Avoids t id (suc n) (suc fuel) seen k less (ne, (c0, f, g)) all stops = λ c found.
      let same : c0 ≡ c = cc (f, found) in
      let up : HasDepth parent t n (parent c) =
        subst (λ (x : V). HasDepth parent t n (parent x)) same g in
      let fresh = AllDeeper-is_seen t (suc n) k seen (ne, (c0, f, g)) all in
      let not_here : (parent c) ≢ id = ground (arith, fresh, found, stops) in
      let rest : climb parent fuel (k ∷ seen) t id (parent c) ≡ false =
        ground (arith, fresh, found, stops) in
      (
        not_here,
        climb-Avoids t id n fuel (k ∷ seen) (parent c) (ground arith) up
            ((suc n, ground arith, (ne, (c0, f, g))), AllDeeper-suc t n seen all) rest,
      )

  -- A chain that avoids `id` is the same after `id` has a new row.
  HasDepth-insert :
      (t : Table V) (id : String) (row : V) (n : ℕ) (k : String)
      → HasDepth parent t n k
      → k ≢ id
      → Avoids t id n k
      → HasDepth parent (insert id row t) n k
  HasDepth-insert t id row zero k (inl e) other away = inl e
  HasDepth-insert t id row zero k (inr e) other away =
      inr (ground (arith, lookup-insert k id row t))
  HasDepth-insert t id row (suc n) k (ne, (c, f, h)) other away =
      let (up, rest) = away c f in
      (
        ne,
        (
          c,
          ground (arith, lookup-insert k id row t),
          HasDepth-insert t id row n (parent c) h up rest,
        ),
      )

  -- Once `id` has a depth again, every node has.
  all-HasDepth :
      (t : Table V) (id : String) (row : V) (i : ℕ)
      → HasDepth parent (insert id row t) i id
      → (n : ℕ) (k : String) → HasDepth parent t n k
      → (m : ℕ) × HasDepth parent (insert id row t) m k
  all-HasDepth t id row i at zero k h = elim (String-discrete k id) [
    | yes e ↦ (i, subst (λ x. HasDepth parent (insert id row t) i x) (sym e) at)
    | no other ↦ (zero, HasDepth-insert t id row zero k h other tt)
  ]
  all-HasDepth t id row i at (suc n) k (ne, (c, f, h)) = elim (String-discrete k id) [
    | yes e ↦ (i, subst (λ x. HasDepth parent (insert id row t) i x) (sym e) at)
    | no other ↦
        let (m, up) = all-HasDepth t id row i at n (parent c) h in
        (suc m, (ne, (c, ground (arith, lookup-insert k id row t), up)))
  ]

  id-HasDepth :
      (t : Table V) (id : String) (row : V)
      → IsDistinct t
      → IsAcyclic t
      → id ≢ ""
      → ((parent row) ≡ "") ⊎ (((parent row) ≢ id) × (is_ancestor parent t id (parent row) ≡ false))
      → (i : ℕ) × HasDepth parent (insert id row t) i id
  unfolding is_ancestor IsAcyclic
  id-HasDepth t id row d acyclic named (inl e) =
      (suc zero, (named, (row, ground (arith, lookup-insert id id row t), inl e)))
  id-HasDepth t id row d acyclic named (inr (other, stops)) =
      let (n, h) = acyclic (parent row) in
      let short = HasDepth-length parent n t (parent row) d h in
      let away = climb-Avoids t id n (suc (length t)) [] (parent row) (ground arith) h tt stops in
      (
        suc n,
        (
          named,
          (
            row,
            ground (arith, lookup-insert id id row t),
            HasDepth-insert t id row n (parent row) h other away,
          ),
        ),
      )

  -- In a tree without cycles, giving a category a parent other than itself that it is no ancestor of, or
  -- none, leaves a tree without cycles.
  pub is_ancestor-IsAcyclic :
      (t : Table V) (id : String) (row : V)
      → IsDistinct t
      → IsAcyclic t
      → id ≢ ""
      → ((parent row) ≡ "") ⊎ (((parent row) ≢ id) × (is_ancestor parent t id (parent row) ≡ false))
      → IsAcyclic (insert id row t)
  unfolding is_ancestor IsAcyclic
  is_ancestor-IsAcyclic t id row d acyclic named allowed k =
      let (i, at) = id-HasDepth t id row d acyclic named allowed in
      let (n, h) = acyclic k in all-HasDepth t id row i at n k h

module _ {V : Type 0} (id_of : V → String) where
  nodes_from-IsDistinct :
      (rows : List V) (nodes : Table V)
      → IsDistinct nodes
      → IsDistinct (nodes_from id_of rows nodes)
  unfolding nodes_from
  nodes_from-IsDistinct [] nodes d = d
  nodes_from-IsDistinct (r ∷ rows) nodes d =
      nodes_from-IsDistinct rows (insert (id_of r) r nodes) (insert-IsDistinct (id_of r) r nodes d)

  pub nodes_of-IsDistinct : (rows : List V) → IsDistinct (nodes_of id_of rows)
  unfolding nodes_of
  nodes_of-IsDistinct rows = nodes_from-IsDistinct rows [] tt

-- The parent is none, or another node that the edited one is no ancestor of.
abbrev pub IsGuarded :
    {V : Type 0} → (V → String) → (V → String) → List V → String → String → Type 0
IsGuarded id_of parent_of rows id parent =
    (parent ≡ "")
    ⊎ ((parent ≢ id) × (is_ancestor parent_of (nodes_of id_of rows) id parent ≡ false))
