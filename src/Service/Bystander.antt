-- ===== src/Service/Bystander.antt =====
-- What a caller of one tenant does to another tenant, through the store's calls.
pub mod Reads
pub mod Writes
pub mod Rows
use go_tangra_asset.Common.{String, ◌≡◌, refl, sym, subst}
use go_tangra_asset.Memstore.State.{Mem, Op, call}
use go_tangra_asset.Memstore.Invariant.{IsValid, call-IsValid}
use go_tangra_asset.Memstore.View.{SameView, SameView-refl, SameView-trans, call-SameView}
use go_tangra_asset.Service.Keeping.{KeepsCall}

-- The store `m` is valid, and tenant `u` sees in it what it saw in `m0`.
pub record IsUnmoved (u : String) (m0 m : Mem) : Type 0 where
  pub valid : IsValid m
  pub view : SameView u m0 m

module _ (u : String) (m0 : Mem) where
  -- A call that keeps the invariant and what `u` sees.
  pub KeepsCall-call :
      {A : Type 0} (op : Op A)
      → ((m : Mem) → IsValid m → IsValid (op m).1)
      → ((m : Mem) → IsValid m → SameView u m (op m).1)
      → KeepsCall (IsUnmoved u m0) op
  unfolding KeepsCall
  KeepsCall-call op keep same m p = record {
    valid = keep m p.valid;
    view = SameView-trans u m0 m (op m).1 p.view (same m p.valid);
  }

  -- A call whose body only reads.
  pub KeepsCall-read :
      {A : Type 0} (method : String) (body : Op A)
      → ((m : Mem) → (body m).1 ≡ m)
      → KeepsCall (IsUnmoved u m0) (call method body)
  KeepsCall-read method body same =
      KeepsCall-call (call method body)
        (λ m v. call-IsValid method body m v (subst IsValid (sym (same m)) v))
        (λ m v.
          call-SameView u method body m (subst (SameView u m) (sym (same m)) (SameView-refl u m)))
