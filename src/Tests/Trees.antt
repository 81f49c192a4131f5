-- ===== src/Tests/Trees.antt =====
-- The cycle guard at a small tree.
use go_tangra_asset.Common.{
  ◌≡◌, inl, inr, refl, String, String-discrete, Bool-cases, List, [], ◌∷◌, false, zero, ne_of_test,
}
use go_tangra_asset.Table.{Table, lookup, insert, IsDistinct}
use go_tangra_asset.Models.{Category}
use go_tangra_asset.Common.{⊤, true, subst, trim_space, str_lt}
use go_tangra_asset.Table.{has, some_row, select, count_rows, update_where, erase}
use go_tangra_asset.Memstore.State.{Env, Result, ok, err, new, call, disarm}
use go_tangra_asset.Memstore.Page.{paginate, sort_by, insert_by, cut, keep}
use go_tangra_asset.Memstore.Invariant.{new-IsValid}
use go_tangra_asset.Memstore.AssetReads.{count_assets_by_category}
use go_tangra_asset.Memstore.Categories.{
  list_categories, create_category, update_category, get_category, delete_category, fill_category,
  count_child_categories,
}
use go_tangra_asset.Memstore.Calls.{Write, category_create, perform, perform_all}
use go_tangra_asset.Memstore.Calls.Invariant.{perform_all-IsValid}
use go_tangra_asset.Authz.{require_tenant}
use go_tangra_asset.Service.{World, Outcome, done, failed, ◌>>=◌, gate, fault_if, emit, on_store}
use go_tangra_asset.CategoryService.{
  category_id, category_parent, Input, update, delete, get, check_parent, validate,
}
use go_tangra_asset.CategoryService.Guards.{IsGone, IsReparented, update-IsAcyclic, delete-IsGone}
use go_tangra_asset.Table.Laws.{insert-IsDistinct}
use go_tangra_asset.Tests.{env, ctx, ann}
use go_tangra_asset.Tree.{nodes_of, nodes_from, is_seen, climb, is_ancestor}
use mathlib.Core.Logic.{◌↔◌}
use go_tangra_asset.Tree.Depth.{HasDepth}
use go_tangra_asset.Tree.Ancestor.{IsAbove, is_ancestor_iff}
use go_tangra_asset.Tree.Reparent.{IsAcyclic, is_ancestor-IsAcyclic}

abbrev category : String → String → Category
category id parent = record {
  id = id;
  tenant_id = "t1";
  name = id;
  description = "";
  parent_id = parent;
  icon = "";
  tags = [];
  created_by = "ann";
  created_at = 0;
  updated_at = 0;
  asset_count = 0;
  child_count = 0;
}

empty-IsAcyclic : IsAcyclic category_parent []
unfolding IsAcyclic lookup
empty-IsAcyclic k = (zero, inr refl)

abbrev one : Table Category
one = insert "a" (category "a" "") []

one-IsAcyclic : IsAcyclic category_parent one
one-IsAcyclic =
    is_ancestor-IsAcyclic category_parent [] "a" (category "a" "") tt empty-IsAcyclic
      (ne_of_test "a" "" refl) (inl refl)

one-IsDistinct : IsDistinct one
unfolding lookup insert
one-IsDistinct = (refl, tt)

b-free : is_ancestor category_parent one "b" "a" ≡ false
unfolding is_ancestor climb is_seen lookup insert String-discrete Bool-cases
b-free = refl

-- A second category under the first.
is_ancestor-IsAcyclic_example : IsAcyclic category_parent (insert "b" (category "b" "a") one)
is_ancestor-IsAcyclic_example =
    is_ancestor-IsAcyclic category_parent one "b" (category "b" "a") one-IsDistinct one-IsAcyclic
      (ne_of_test "b" "" refl) (inr (ne_of_test "a" "b" refl, b-free))

abbrev two : Table Category
two = insert "b" (category "b" "a") one

two-IsDistinct : IsDistinct two
two-IsDistinct = insert-IsDistinct "b" (category "b" "a") one one-IsDistinct

b-HasDepth : HasDepth category_parent two 2 "b"
unfolding lookup insert String-discrete Bool-cases
b-HasDepth = (
  ne_of_test "b" "" refl,
  (category "b" "a", refl, (ne_of_test "a" "" refl, (category "a" "", refl, inl refl))),
)

is_ancestor_iff_example :
    (is_ancestor category_parent two "a" "b" ≡ true) ↔ IsAbove category_parent two "a" 2 "b"
is_ancestor_iff_example = is_ancestor_iff category_parent two "a" "b" 2 two-IsDistinct b-HasDepth

-- A store with two categories.
abbrev shelves : List (Env × Write)
shelves =
    (env "a", category_create (category "a" "")) ∷ (env "b", category_create (category "b" "")) ∷ []

abbrev before_update : World
before_update = record { mem = perform_all shelves new; effects = [] }

abbrev listed_or : List Category → Result (List Category) → List Category
listed_or d (ok rows) = rows
listed_or d (err e) = d

abbrev rows : List Category
rows = listed_or [] (list_categories "t1" before_update.mem).0

rows-listed : (list_categories "t1" before_update.mem).0 ≡ ok rows
unfolding list_categories perform_all perform create_category call disarm some_row has lookup insert
    select paginate sort_by insert_by cut keep fill_category count_rows str_lt String-discrete
    Bool-cases
rows-listed = refl

abbrev under_a : Input
under_a = record { name = "B"; description = ""; parent_id = "a"; icon = ""; tags = [] }

abbrev updated : Outcome Category × World
updated = update (ctx "x") ann "b" under_a before_update

abbrev answer : Category → Outcome Category → Category
answer d (done c) = c
answer d (failed e) = d

updated-done : updated ≡ (done (answer (category "b" "") updated.0), updated.1)
unfolding update get check_parent validate update_category get_category nodes_of nodes_from
    is_ancestor climb is_seen require_tenant ◌>>=◌ gate fault_if emit on_store trim_space
    list_categories perform_all perform create_category call disarm some_row has lookup insert
    select paginate sort_by insert_by cut keep fill_category count_rows str_lt String-discrete
    Bool-cases
updated-done = refl

abbrev stored : String → Category
stored id = record (category id "") { created_at = 1000; updated_at = 1000 }

abbrev root_b : Table Category
root_b = insert "b" (stored "b") []

rows-nodes : insert "a" (stored "a") root_b ≡ nodes_of category_id rows
unfolding list_categories perform_all perform create_category call disarm some_row has lookup insert
    select paginate sort_by insert_by cut keep fill_category count_rows str_lt String-discrete
    Bool-cases nodes_of nodes_from
rows-nodes = refl

root_b-IsAcyclic : IsAcyclic category_parent root_b
root_b-IsAcyclic =
    is_ancestor-IsAcyclic category_parent [] "b" (stored "b") tt empty-IsAcyclic
      (ne_of_test "b" "" refl) (inl refl)

rows-IsAcyclic : IsAcyclic category_parent (nodes_of category_id rows)
rows-IsAcyclic =
    subst (λ t. IsAcyclic category_parent t) rows-nodes
      (is_ancestor-IsAcyclic category_parent root_b "a" (stored "a")
        (insert-IsDistinct "b" (stored "b") [] tt) root_b-IsAcyclic (ne_of_test "a" "" refl)
        (inl refl))

update-IsAcyclic_example : IsReparented "b" rows before_update.mem updated.1.mem
update-IsAcyclic_example =
    update-IsAcyclic (ctx "x") ann "b" under_a rows before_update updated.1
      (answer (category "b" "") updated.0)
      (perform_all-IsValid shelves new (tt, (tt, tt)) new-IsValid) (ne_of_test "b" "" refl)
      rows-listed rows-IsAcyclic updated-done

abbrev deleted : Outcome ⊤ × World
deleted = delete ann "b" before_update

deleted-done : deleted ≡ (done tt, deleted.1)
unfolding delete delete_category count_child_categories count_assets_by_category update_where erase
    get_category require_tenant ◌>>=◌ gate fault_if emit on_store perform_all perform
    create_category call disarm some_row has lookup insert count_rows fill_category String-discrete
    Bool-cases
deleted-done = refl

delete-IsGone_example : IsGone "t1" "b" deleted.1.mem
delete-IsGone_example =
    delete-IsGone ann "b" before_update deleted.1
      (perform_all-IsValid shelves new (tt, (tt, tt)) new-IsValid) (ne_of_test "b" "" refl)
      deleted-done
