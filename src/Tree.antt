-- ===== src/Tree.antt =====
-- internal/categories/categories.go and internal/locations/locations.go: the guard that keeps a tree
-- without cycles, which is the same in both.
pub mod Depth
pub mod Reparent
pub mod Ancestor
use go_tangra_asset.Common.{
  ℕ, zero, suc, String, Bool, true, false, Option, none, some, List, [], ◌∷◌, ◌==◌, if◌then◌else◌,
}
use go_tangra_asset.Table.{Table, lookup, insert}
use go_tangra_asset.Memstore.Page.{length}

unfoldable pub is_seen : String → List String → Bool
is_seen x [] = false
is_seen x (y ∷ ys) = if y == x then true else is_seen x ys

module _ {V : Type 0} (id_of : V → String) where
  -- `nodes[r.ID] = &Node{…: r}` for each row
  unfoldable pub nodes_from : List V → Table V → Table V
  nodes_from [] nodes = nodes
  nodes_from (r ∷ rows) nodes = nodes_from rows (insert (id_of r) r nodes)

  unfoldable pub nodes_of : List V → Table V
  unfolding nodes_from
  nodes_of rows = nodes_from rows []

module _ {V : Type 0} (parent : V → String) where
  -- One round of the loop at a node that is there, where `up` is what the next rounds find.
  abbrev pub at_node : String → Option V → Bool → Bool
  at_node id none up = false
  at_node id (some c) up = if (parent c) == id then true else up

  abbrev pub parent_of : Option V → String
  parent_of none = ""
  parent_of (some c) = (parent c)

  -- The loop of `isAncestor`, on fuel.
  unfoldable pub climb : ℕ → List String → Table V → String → String → Bool
  unfolding is_seen
  climb zero seen nodes id cur = false
  climb (suc fuel) seen nodes id cur =
      let here = lookup cur nodes in
      let up = climb fuel (cur ∷ seen) nodes id (parent_of here) in
      if cur == "" then false else if is_seen cur seen then false else at_node id here up

  -- No chain of parents without repetition is longer than the map, so one round more than its size is
  -- enough fuel.
  unfoldable pub is_ancestor : Table V → String → String → Bool
  unfolding climb
  is_ancestor nodes id candidate = climb (suc (length nodes)) [] nodes id candidate
