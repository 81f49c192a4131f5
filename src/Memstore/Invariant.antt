-- ===== src/Memstore/Invariant.antt =====
-- The invariant of the store, and what of it a call through the error injection keeps.
use go_tangra_asset.Common.{String, Bool, false, ◌≡◌, refl, inr, arith}
use go_tangra_asset.Table.{Table, insert, update_where}
use go_tangra_asset.Table.Sound.{IsSound, empty-IsSound, insert-IsSound, update_where-IsSound}
use go_tangra_asset.Models.{
  Asset, Assignment, Document, Category, Supplier, Location, Consumable, License, InsurancePolicy,
  PolicyAsset, NotifyState, InvSyncSettings,
}
use go_tangra_asset.Memstore.State.{Mem, Op, new, call, disarm}
use go_tangra_asset.Memstore.Assets.{same_tag}
use go_tangra_asset.Memstore.Documents.{same_key}
use go_tangra_asset.Memstore.Categories.{same_category}
use go_tangra_asset.Memstore.Suppliers.{same_supplier}
use go_tangra_asset.Memstore.Locations.{same_location}
use go_tangra_asset.Memstore.Insurance.{same_policy, same_link}
use go_tangra_asset.Memstore.Housekeeping.{same_condition}

-- The index of a table that has no unique index beside its key.
abbrev pub never : {V : Type 0} → V → V → Bool
never v w = false

-- Each table is sound for its unique index: the asset tag, the storage key, the names in their scope,
-- the policy number and name, the pair of policy and asset, and the tenant's condition. Settings are keyed by their tenant.
pub record IsValid (m : Mem) : Type 0 where
  pub assets : IsSound (λ (x : Asset). x.id) same_tag m.assets
  pub assignments : IsSound (λ (x : Assignment). x.id) never m.assignments
  pub documents : IsSound (λ (x : Document). x.id) same_key m.documents
  pub categories : IsSound (λ (x : Category). x.id) same_category m.categories
  pub suppliers : IsSound (λ (x : Supplier). x.id) same_supplier m.suppliers
  pub locations : IsSound (λ (x : Location). x.id) same_location m.locations
  pub consumables : IsSound (λ (x : Consumable). x.id) never m.consumables
  pub licenses : IsSound (λ (x : License). x.id) never m.licenses
  pub insurance : IsSound (λ (x : InsurancePolicy). x.id) same_policy m.insurance
  pub policy_assets : IsSound (λ (x : PolicyAsset). x.id) same_link m.policy_assets
  pub notify : IsSound (λ (x : NotifyState). x.id) same_condition m.notify
  pub invsync : IsSound (λ (x : InvSyncSettings). x.tenant_id) never m.invsync

-- The empty store is valid.
pub new-IsValid : IsValid new
new-IsValid = record {
  assets = empty-IsSound (λ (x : Asset). x.id) same_tag;
  assignments = empty-IsSound (λ (x : Assignment). x.id) never;
  documents = empty-IsSound (λ (x : Document). x.id) same_key;
  categories = empty-IsSound (λ (x : Category). x.id) same_category;
  suppliers = empty-IsSound (λ (x : Supplier). x.id) same_supplier;
  locations = empty-IsSound (λ (x : Location). x.id) same_location;
  consumables = empty-IsSound (λ (x : Consumable). x.id) never;
  licenses = empty-IsSound (λ (x : License). x.id) never;
  insurance = empty-IsSound (λ (x : InsurancePolicy). x.id) same_policy;
  policy_assets = empty-IsSound (λ (x : PolicyAsset). x.id) same_link;
  notify = empty-IsSound (λ (x : NotifyState). x.id) same_condition;
  invsync = empty-IsSound (λ (x : InvSyncSettings). x.tenant_id) never;
}

-- A call that fails by injection keeps the invariant.
pub call-IsValid :
    {A : Type 0} (method : String) (body : Op A) (m : Mem)
    → IsValid m
    → IsValid (body m).1
    → IsValid (call method body m).1
unfolding call disarm
call-IsValid method body m v h = ground arith

-- A new row in a table with no unique index.
pub insert_free-IsSound :
    {V : Type 0} (id_of : V → String) (k : String) (v : V) (t : Table V)
    → id_of v ≡ k
    → IsSound id_of never t
    → IsSound id_of never (insert k v t)
insert_free-IsSound id_of k v t e s =
    insert-IsSound id_of never k v t (λ x y h. h) (λ j w f. inr refl) e s

pub update_free-IsSound :
    {V : Type 0} (id_of : V → String) (p : V → Bool) (f : V → V) (t : Table V)
    → ((v : V) → id_of (f v) ≡ id_of v)
    → IsSound id_of never t
    → IsSound id_of never (update_where p f t)
update_free-IsSound id_of p f t ids =
    update_where-IsSound id_of never p f t ids (λ v w. refl) (λ v w. refl)
