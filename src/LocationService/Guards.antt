-- ===== src/LocationService/Guards.antt =====
-- What the guard of an update lets through, for locations.
use go_tangra_asset.Common.{
  String, refl, ap, ◌∙◌, Option-cases, ◌≡◌, ◌≢◌, sym, List, arith, ◌==◌, Bool-cases, inl, inr,
  subst,
}
use go_tangra_asset.Table.{lookup, insert}
use go_tangra_asset.Table.Sound.{parts}
use go_tangra_asset.Memstore.Invariant.{IsValid}
use go_tangra_asset.Models.{Location}
use go_tangra_asset.Memstore.State.{Mem, Env, ok, call, disarm, of_tenant}
use go_tangra_asset.Memstore.Locations.{
  get_location, list_locations, update_location, location_tenant, fill_location, same_location,
}
use go_tangra_asset.Authz.{Subjects}
use go_tangra_asset.Service.{World, done}
use go_tangra_asset.Service.Contacts.{Vault, seal_contact-After}
use go_tangra_asset.Service.Rules.{
  After, After-gate, After-fault_if, After-store, After-bind, After-pure, After-done, Any,
  fault_if-After, After-emit,
}
use go_tangra_asset.AssetService.{Ctx}
use go_tangra_asset.Tree.{nodes_of}
use go_tangra_asset.Tree.Reparent.{IsAcyclic, IsGuarded, is_ancestor-IsAcyclic, nodes_of-IsDistinct}
use go_tangra_asset.LocationService.{
  location_id, location_parent, location_kind, Input, update, apply, get, path, seal, check_parent,
}

-- A read that succeeds changes nothing.
get_location-same :
    (tenant id : String) (m : Mem) (l : Location)
    → (get_location tenant id m).0 ≡ ok l
    → (get_location tenant id m).1 ≡ m
unfolding get_location call disarm
get_location-same tenant id m l e = ground arith

list_locations-same :
    (tenant : String) (m : Mem) (rows : List Location)
    → (list_locations tenant m).0 ≡ ok rows
    → (list_locations tenant m).1 ≡ m
unfolding list_locations call disarm
list_locations-same tenant m rows e = ground arith

-- Past the check, which writes nothing, the parent is guarded, the tenant's locations being `rows`.
check_parent-IsGuarded :
    (subj : Subjects) (id parent : String) (rows : List Location) (w : World)
    → (list_locations subj.tenant_id w.mem).0 ≡ ok rows
    → After
        (λ b w'. IsGuarded location_id location_parent rows id parent × (w'.mem ≡ w.mem))
        Any
        (check_parent subj id parent w)
unfolding check_parent
check_parent-IsGuarded subj id parent rows w listed = elim (Bool-cases (parent == "")) [
  | inl none_given ↦ rw none_given (After-pure _ Any _ w (inl (ground arith), refl))
  | inr given ↦ rw given (
      After-fault_if _ Any _ _ _ w tt (λ other.
        After-store _ Any _ _ _ w (λ x e. tt)
          (λ rows' again.
            let same = list_locations-same subj.tenant_id w.mem rows' again in
            let rows-same : rows' ≡ rows = ground arith in
            fault_if-After _ _ _ _ (λ free. (inr (ground arith, ground arith), same)))))
]

-- The location that a read finds has the id that was asked for.
get_location-id :
    (tenant id : String) (m : Mem) (c : Location)
    → IsValid m
    → (get_location tenant id m).0 ≡ ok c
    → c.id ≡ id
unfolding get_location call disarm fill_location
get_location-id tenant id m c valid e = elim (Option-cases (lookup id m.locations)) [
  | inl gone ↦ ground arith
  | inr (x, found) ↦
      let keyed =
        (parts (λ (y : Location). y.id) same_location m.locations valid.locations).keyed id x
          found in
      ground (arith, keyed)
]

-- An update that is done writes the location that it is given, but for the times, under its id.
update_location-writes :
    (env : Env) (c : Location) (m : Mem)
    → (update_location env c m).0 ≡ ok tt
    → (row : Location) × ((update_location env c m).1.locations ≡ insert c.id row m.locations)
      × (row.parent_id ≡ c.parent_id)
unfolding update_location call disarm
update_location-writes env c m e =
    elim (Option-cases (of_tenant location_tenant c.tenant_id (lookup c.id m.locations))) [
      | inl gone ↦ absurd (ground arith)
      | inr (ex, found) ↦
          (record c { created_at = ex.created_at; updated_at = env.now }, ground arith, refl)
    ]

-- The path and the sealing of a location write nothing, and sealing keeps its id and its parent.
path-After :
    (tenant parent name : String) (w : World)
    → After (λ b w'. w'.mem ≡ w.mem) Any (path tenant parent name w)
unfolding path
path-After tenant parent name w = elim (Bool-cases (parent == "")) [
  | inl top ↦ rw top (After-pure _ Any _ w refl)
  | inr under ↦ rw under (
      After-store _ Any _ _ _ w (λ x e. tt)
        (λ p read. After-pure _ Any _ _ (get_location-same tenant parent w.mem p read)))
]

seal-After :
    (vault : Vault) (l : Location) (w : World)
    → After
        (λ s w'. (w'.mem ≡ w.mem) × (s.id ≡ l.id) × (s.parent_id ≡ l.parent_id))
        Any
        (seal vault l w)
unfolding seal
seal-After vault l w =
    After-bind _ Any _ _ _ w (seal_contact-After vault location_kind l.id "contact" l.contact w)
      (λ a w1 e1.
        After-bind _ Any _ _ _ w1 (seal_contact-After vault location_kind l.id "phone" l.phone w1)
          (λ b w2 e2.
            After-bind _ Any _ _ _ w2
              (seal_contact-After vault location_kind l.id "email" l.email w2)
              (λ c w3 e3. After-pure _ Any _ w3 (e3 ∙ e2 ∙ e1, refl, refl))))

-- The store's table has a row put under the id, and with this row the tenant's tree has no cycles.
pub IsReparented : String → List Location → Mem → Mem → Type 0
IsReparented id rows m m' =
    (row : Location) × (m'.locations ≡ insert id row m.locations)
    × IsAcyclic location_parent (insert id row (nodes_of location_id rows))

-- The read that ends an update writes nothing.
get-After :
    (vault : Vault) (subj : Subjects) (id : String) (rows : List Location) (row : Location)
    (m : Mem) (w : World)
    → w.mem.locations ≡ insert id row m.locations
    → IsAcyclic location_parent (insert id row (nodes_of location_id rows))
    → After (λ c w'. IsReparented id rows m w'.mem) Any (get vault subj id w)
unfolding get IsReparented
get-After vault subj id rows row m w stored acyclic = After-gate _ Any _ _ _ tt (λ own.
    After-store _ Any _ _ _ w (λ x e. tt)
      (λ l read. After-pure _ Any _ _ (
        row,
        ap (λ m. m.locations) (get_location-same subj.tenant_id id w.mem l read) ∙ stored,
        acyclic,
      )))

update-After :
    (ctx : Ctx) (vault : Vault) (subj : Subjects) (id : String) (i : Input) (rows : List Location)
    (w : World)
    → IsValid w.mem
    → id ≢ ""
    → (list_locations subj.tenant_id w.mem).0 ≡ ok rows
    → IsAcyclic location_parent (nodes_of location_id rows)
    → After (λ c w'. IsReparented id rows w.mem w'.mem) Any (update ctx vault subj id i w)
unfolding update apply IsReparented
update-After ctx vault subj id i rows w valid named listed acyclic =
    After-gate _ Any _ _ w tt (λ own. After-gate _ Any _ _ w tt (λ sound.
      After-store _ Any _ _ _ w (λ x e. tt)
        (λ c read.
          let m1 = (get_location subj.tenant_id id w.mem).1 in
          let same = get_location-same subj.tenant_id id w.mem c read in
          After-bind _ Any _ _ _ _
            (check_parent-IsGuarded subj id i.parent_id rows _ (ground (arith, same)))
            (λ b w2 (guarded, still).
              After-bind _ Any _ _ _ w2 (path-After subj.tenant_id i.parent_id _ w2) (λ p w3 kept.
                After-bind _ Any _ _ _ w3 (seal-After vault _ w3)
                  (λ s w4 (sealed, id-same, parent-same).
                    After-store _ Any _ _ _ w4 (λ x e. tt)
                      (λ u updated.
                        let (row, wrote, parent) =
                          update_location-writes ctx.env s w4.mem updated in
                        let acyclic' =
                          is_ancestor-IsAcyclic location_parent (nodes_of location_id rows) id row
                            (nodes_of-IsDistinct location_id rows) acyclic named
                            (subst (λ q. IsGuarded location_id location_parent rows id q)
                              (sym (parent ∙ parent-same)) guarded) in
                        let stored =
                          wrote
                          ∙ ap (λ k. insert k row w4.mem.locations)
                              (id-same ∙ get_location-id subj.tenant_id id w.mem c valid read)
                          ∙ ap (λ (m : Mem). insert id row m.locations)
                              (sealed ∙ kept ∙ still ∙ same) in
                        After-emit _ Any _ _ _
                          (get-After vault subj id rows row w.mem _ stored acyclic'))))))))

-- An update that is done, from a valid store and of an id that is not blank, puts a row in the
-- place of the location in the store's table and changes no other row of it; the tenant's tree
-- with this row, that is the nodes of the tenant's listing before with the row under the id, has
-- no cycles, if the tree before had none.
pub location_update-IsAcyclic :
    (ctx : Ctx) (vault : Vault) (subj : Subjects) (id : String) (i : Input) (rows : List Location)
    (w w' : World) (l : Location)
    → IsValid w.mem
    → id ≢ ""
    → (list_locations subj.tenant_id w.mem).0 ≡ ok rows
    → IsAcyclic location_parent (nodes_of location_id rows)
    → update ctx vault subj id i w ≡ (done l, w')
    → IsReparented id rows w.mem w'.mem
location_update-IsAcyclic ctx vault subj id i rows w w' l valid named listed acyclic e =
    After-done _ _ _ l w' e (update-After ctx vault subj id i rows w valid named listed acyclic)
