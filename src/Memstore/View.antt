-- ===== src/Memstore/View.antt =====
-- What one tenant can see of the store: its rows in each table.
use go_tangra_asset.Common.{String, ◌≡◌, ◌==◌, arith}
use go_tangra_asset.Table.{select}
use go_tangra_asset.Memstore.State.{Mem, Op, call, disarm}

-- Tenant `u` sees the same rows, in the same order, in every table of `m'` as in `m`.
pub record SameView (u : String) (m m' : Mem) : Type 0 where
  pub assets : select (λ v. v.tenant_id == u) m'.assets ≡ select (λ v. v.tenant_id == u) m.assets
  pub assignments :
      select (λ v. v.tenant_id == u) m'.assignments ≡ select (λ v. v.tenant_id == u) m.assignments
  pub documents :
      select (λ v. v.tenant_id == u) m'.documents ≡ select (λ v. v.tenant_id == u) m.documents
  pub invsync : select (λ v. v.tenant_id == u) m'.invsync ≡ select (λ v. v.tenant_id == u) m.invsync
  pub categories :
      select (λ v. v.tenant_id == u) m'.categories ≡ select (λ v. v.tenant_id == u) m.categories
  pub suppliers :
      select (λ v. v.tenant_id == u) m'.suppliers ≡ select (λ v. v.tenant_id == u) m.suppliers
  pub locations :
      select (λ v. v.tenant_id == u) m'.locations ≡ select (λ v. v.tenant_id == u) m.locations
  pub consumables :
      select (λ v. v.tenant_id == u) m'.consumables ≡ select (λ v. v.tenant_id == u) m.consumables
  pub licenses :
      select (λ v. v.tenant_id == u) m'.licenses ≡ select (λ v. v.tenant_id == u) m.licenses
  pub insurance :
      select (λ v. v.tenant_id == u) m'.insurance ≡ select (λ v. v.tenant_id == u) m.insurance
  pub policy_assets :
      select (λ v. v.tenant_id == u) m'.policy_assets
      ≡ select (λ v. v.tenant_id == u) m.policy_assets
  pub notify : select (λ v. v.tenant_id == u) m'.notify ≡ select (λ v. v.tenant_id == u) m.notify

pub SameView-refl : (u : String) (m : Mem) → SameView u m m
SameView-refl u m = ground arith

pub SameView-trans : (u : String) (a b c : Mem) → SameView u a b → SameView u b c → SameView u a c
SameView-trans u a b c h k = ground arith

-- A call that fails by injection changes nothing that a tenant sees.
pub call-SameView :
    {A : Type 0} (u method : String) (body : Op A) (m : Mem)
    → SameView u m (body m).1
    → SameView u m (call method body m).1
unfolding call disarm
call-SameView u method body m h = ground arith
