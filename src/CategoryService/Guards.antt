-- ===== src/CategoryService/Guards.antt =====
-- What the guards of an update and of a deletion let through.
use go_tangra_asset.Common.{
  ℕ, String, ◌≡◌, ◌≢◌, refl, sym, ap, ◌∙◌, none, Option-cases, List, arith, ◌==◌, Bool-cases, inl,
  inr, subst,
}
use go_tangra_asset.Table.{lookup, insert, count_rows}
use go_tangra_asset.Table.Laws.{lookup-erase}
use go_tangra_asset.Table.Select.{
  some_row-count_rows, count_rows-update_where, count_rows-erase_none,
}
use go_tangra_asset.Table.Sound.{parts}
use go_tangra_asset.Memstore.Invariant.{IsValid}
use go_tangra_asset.Models.{Category, Consumable}
use go_tangra_asset.Memstore.State.{Mem, Env, ok, call, disarm, of_tenant}
use go_tangra_asset.Memstore.AssetReads.{count_assets_by_category}
use go_tangra_asset.Memstore.Categories.{
  child_category, asset_in_category, consumable_in_category, same_category, get_category,
  list_categories, delete_category, count_child_categories, update_category, category_tenant,
  fill_category,
}
use go_tangra_asset.Authz.{Subjects}
use go_tangra_asset.Service.{World, done}
use go_tangra_asset.Service.Rules.{
  After, After-gate, After-fault_if, After-store, After-bind, After-pure, After-done, Any,
  fault_if-After, emit-After, After-emit, on_store-After,
}
use go_tangra_asset.AssetService.{Ctx}
use go_tangra_asset.Tree.{nodes_of}
use go_tangra_asset.Tree.Reparent.{IsAcyclic, IsGuarded, is_ancestor-IsAcyclic, nodes_of-IsDistinct}
use go_tangra_asset.CategoryService.{
  category_id, category_parent, Input, delete, update, get, edited, check_parent,
}

-- A read that succeeds changes nothing.
module _ (tenant id : String) (m : Mem) where
  get_category-same :
      (c : Category) → (get_category tenant id m).0 ≡ ok c → (get_category tenant id m).1 ≡ m
  unfolding get_category call disarm
  get_category-same c e = ground arith

  count_child_categories-same :
      (n : ℕ)
      → (count_child_categories tenant id m).0 ≡ ok n
      → (count_child_categories tenant id m).1 ≡ m
  unfolding count_child_categories call disarm
  count_child_categories-same n e = ground arith

  count_assets_by_category-same :
      (n : ℕ)
      → (count_assets_by_category tenant id m).0 ≡ ok n
      → (count_assets_by_category tenant id m).1 ≡ m
  unfolding count_assets_by_category call disarm
  count_assets_by_category-same n e = ground arith

list_categories-same :
    (tenant : String) (m : Mem) (rows : List Category)
    → (list_categories tenant m).0 ≡ ok rows
    → (list_categories tenant m).1 ≡ m
unfolding list_categories call disarm
list_categories-same tenant m rows e = ground arith

-- Past the check, which writes nothing, the parent is guarded, the tenant's categories being `rows`.
check_parent-IsGuarded :
    (subj : Subjects) (id parent : String) (rows : List Category) (w : World)
    → (list_categories subj.tenant_id w.mem).0 ≡ ok rows
    → After
        (λ b w'. IsGuarded category_id category_parent rows id parent × (w'.mem ≡ w.mem))
        Any
        (check_parent subj id parent w)
unfolding check_parent
check_parent-IsGuarded subj id parent rows w listed = elim (Bool-cases (parent == "")) [
  | inl none_given ↦ rw none_given (After-pure _ Any _ w (inl (ground arith), refl))
  | inr given ↦ rw given (
      After-fault_if _ Any _ _ _ w tt (λ other.
        After-store _ Any _ _ _ w (λ x e. tt)
          (λ c read.
            let m1 = (get_category subj.tenant_id parent w.mem).1 in
            let same = get_category-same subj.tenant_id parent w.mem c read in
            After-store _ Any _ _ _ _ (λ x e. tt)
              (λ rows' again.
                let rows-same : rows' ≡ rows = ground (arith, same) in
                let still = list_categories-same subj.tenant_id m1 rows' again in
                fault_if-After _ _ _ _
                  (λ free. (inr (ground arith, ground arith), still ∙ same))))))
]

-- The category that a read finds has the id that was asked for.
get_category-id :
    (tenant id : String) (m : Mem) (c : Category)
    → IsValid m
    → (get_category tenant id m).0 ≡ ok c
    → c.id ≡ id
unfolding get_category call disarm fill_category
get_category-id tenant id m c valid e = elim (Option-cases (lookup id m.categories)) [
  | inl gone ↦ ground arith
  | inr (x, found) ↦
      let keyed =
        (parts (λ (y : Category). y.id) same_category m.categories valid.categories).keyed id x
          found in
      ground (arith, keyed)
]

-- An update that is done writes the category that it is given, but for the times, under its id.
update_category-writes :
    (env : Env) (c : Category) (m : Mem)
    → (update_category env c m).0 ≡ ok tt
    → (row : Category) × ((update_category env c m).1.categories ≡ insert c.id row m.categories)
      × (row.parent_id ≡ c.parent_id)
unfolding update_category call disarm
update_category-writes env c m e =
    elim (Option-cases (of_tenant category_tenant c.tenant_id (lookup c.id m.categories))) [
      | inl gone ↦ absurd (ground arith)
      | inr (ex, found) ↦
          (record c { created_at = ex.created_at; updated_at = env.now }, ground arith, refl)
    ]

-- The store's table has a row put under the id, and with this row the tenant's tree has no cycles.
pub IsReparented : String → List Category → Mem → Mem → Type 0
IsReparented id rows m m' =
    (row : Category) × (m'.categories ≡ insert id row m.categories)
    × IsAcyclic category_parent (insert id row (nodes_of category_id rows))

update-After :
    (ctx : Ctx) (subj : Subjects) (id : String) (i : Input) (rows : List Category) (w : World)
    → IsValid w.mem
    → id ≢ ""
    → (list_categories subj.tenant_id w.mem).0 ≡ ok rows
    → IsAcyclic category_parent (nodes_of category_id rows)
    → After (λ c w'. IsReparented id rows w.mem w'.mem) Any (update ctx subj id i w)
unfolding update get IsReparented
update-After ctx subj id i rows w valid named listed acyclic = After-gate _ Any _ _ w tt (λ own.
    After-gate _ Any _ _ w tt (λ sound.
      After-store _ Any _ _ _ w (λ x e. tt)
        (λ c read.
          let m1 = (get_category subj.tenant_id id w.mem).1 in
          let same = get_category-same subj.tenant_id id w.mem c read in
          After-bind _ Any _ _ _ _
            (check_parent-IsGuarded subj id i.parent_id rows _ (ground (arith, same)))
            (λ b w2 (guarded, still).
              After-store _ Any _ _ _ w2 (λ x e. tt)
                (λ u updated.
                  let (row, wrote, parent) =
                    update_category-writes ctx.env (edited ctx i c) w2.mem updated in
                  let acyclic' =
                    is_ancestor-IsAcyclic category_parent (nodes_of category_id rows) id row
                      (nodes_of-IsDistinct category_id rows) acyclic named
                      (subst (λ p. IsGuarded category_id category_parent rows id p) (sym parent)
                        guarded) in
                  let stored =
                    wrote
                    ∙ ap (λ k. insert k row w2.mem.categories)
                        (get_category-id subj.tenant_id id w.mem c valid read)
                    ∙ ap (λ (m : Mem). insert id row m.categories) (still ∙ same) in
                  After-emit _ Any _ _ _ (
                    After-gate _ Any _ _ _ tt (λ own'. on_store-After _ _ _ _ (λ c' again. (
                      row,
                      ap (λ m. m.categories) (get_category-same subj.tenant_id id _ c' again)
                          ∙ stored,
                      acyclic',
                    )))))))))

-- An update that is done, from a valid store and of an id that is not blank, puts a row in the
-- place of the category in the store's table and changes no other row of it; the tenant's tree
-- with this row, that is the nodes of the tenant's listing before with the row under the id, has
-- no cycles, if the tree before had none.
pub update-IsAcyclic :
    (ctx : Ctx) (subj : Subjects) (id : String) (i : Input) (rows : List Category) (w w' : World)
    (c : Category)
    → IsValid w.mem
    → id ≢ ""
    → (list_categories subj.tenant_id w.mem).0 ≡ ok rows
    → IsAcyclic category_parent (nodes_of category_id rows)
    → update ctx subj id i w ≡ (done c, w')
    → IsReparented id rows w.mem w'.mem
update-IsAcyclic ctx subj id i rows w w' c valid named listed acyclic e =
    After-done _ _ _ c w' e (update-After ctx subj id i rows w valid named listed acyclic)

-- No row of the tenant refers to the category, which is gone.
pub record IsGone (tenant id : String) (m : Mem) : Type 0 where
  pub gone : lookup id m.categories ≡ none
  pub childless : count_rows (child_category tenant id) m.categories ≡ 0
  pub assetless : count_rows (asset_in_category tenant id) m.assets ≡ 0
  pub unstocked : count_rows (consumable_in_category tenant id) m.consumables ≡ 0

module _ (tenant id : String) (m : Mem) (valid : IsValid m) (named : id ≢ "") where
  delete_category-IsGone :
      (delete_category tenant id m).0 ≡ ok tt → IsGone tenant id (delete_category tenant id m).1
  unfolding delete_category call disarm
  delete_category-IsGone e =
      let d =
        (parts (λ (x : Category). x.id) same_category m.categories valid.categories).distinct in
      let c = some_row-count_rows (child_category tenant id) m.categories in
      let a = some_row-count_rows (asset_in_category tenant id) m.assets in
      let s =
        count_rows-update_where (consumable_in_category tenant id)
          (consumable_in_category tenant id) (λ (x : Consumable). record x { category_id = "" })
          m.consumables (λ v h. h) (λ v h. ground arith) in
      record {
        gone = ground (arith, lookup-erase id id m.categories d);
        childless =
            ground (arith, c, count_rows-erase_none (child_category tenant id) id m.categories);
        assetless = ground (arith, a);
        unstocked = ground (arith, s);
      }

delete-After :
    (subj : Subjects) (id : String) (w : World)
    → IsValid w.mem
    → id ≢ ""
    → After (λ b w'. IsGone subj.tenant_id id w'.mem) Any (delete subj id w)
unfolding delete
delete-After subj id w valid named = After-gate _ Any _ _ w tt (λ own.
    After-store _ Any _ _ _ w (λ x e. tt)
      (λ c read.
        After-store _ Any _ _ _ _ (λ x e. tt)
          (λ n counted. After-fault_if _ Any _ _ _ _ tt (λ none_under.
            After-store _ Any _ _ _ _ (λ x e. tt)
              (λ n' counted'. After-fault_if _ Any _ _ _ _ tt (λ unused.
                After-store _ Any _ _ _ _ (λ x e. tt)
                  (λ u deleted.
                    let m1 = (get_category subj.tenant_id id w.mem).1 in
                    let m2 = (count_child_categories subj.tenant_id id m1).1 in
                    let m3 = (count_assets_by_category subj.tenant_id id m2).1 in
                    let same : m3 ≡ w.mem = ground (
                      arith,
                      get_category-same subj.tenant_id id w.mem c read,
                      count_child_categories-same subj.tenant_id id m1 n counted,
                      count_assets_by_category-same subj.tenant_id id m2 n' counted',
                    ) in
                    let valid' = subst (λ m. IsValid m) (sym same) valid in
                    emit-After (IsGone subj.tenant_id id) _ _
                      (delete_category-IsGone subj.tenant_id id m3 valid' named deleted))))))))

-- A deletion that is done, from a valid store and of an id that is not blank, leaves no category under
-- the id, and no category, asset or consumable of the tenant that refers to it.
pub delete-IsGone :
    (subj : Subjects) (id : String) (w w' : World)
    → IsValid w.mem
    → id ≢ ""
    → delete subj id w ≡ (done tt, w')
    → IsGone subj.tenant_id id w'.mem
delete-IsGone subj id w w' valid named e =
    After-done _ _ _ tt w' e (delete-After subj id w valid named)
