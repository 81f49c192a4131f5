-- ===== src/Tests/Store.antt =====
-- The store on a concrete run of one tenant's calls.
use go_tangra_asset.Common.{List, [], ◌∷◌, refl, ne_of_test}
use go_tangra_asset.Table.{lookup}
use go_tangra_asset.Models.{NotifyState}
use go_tangra_asset.Memstore.State.{Env, new}
use go_tangra_asset.Memstore.Invariant.{IsValid, new-IsValid}
use go_tangra_asset.Memstore.View.{SameView}
use go_tangra_asset.Memstore.Calls.{
  Write, asset_create, asset_update, asset_delete, notify_upsert, failure_arm, perform_all,
  AllFresh, NoneFor,
}
use go_tangra_asset.Memstore.Calls.Invariant.{perform_all-IsValid}
use go_tangra_asset.Memstore.Calls.Isolation.{perform_all-SameView}
use go_tangra_asset.Tests.{env, asset}

abbrev notice : NotifyState
notice = record {
  id = "";
  tenant_id = "t1";
  condition_key = "warranty:a1";
  last_notified_at = 900;
  last_state = "expiring";
}

-- The third call is refused, its tag being taken, and the fifth by the failure that the fourth arms.
abbrev run : List (Env × Write)
run =
    (env "n1", notify_upsert notice)
    ∷ (env "a1", asset_create (asset "t1" "a1" "AST-1"))
    ∷ (env "x", asset_create (asset "t1" "a2" "AST-1"))
    ∷ (env "x", failure_arm "DeleteAsset")
    ∷ (env "x", asset_delete "t1" "a1")
    ∷ (env "x", asset_update (asset "t1" "a1" "AST-2"))
    ∷ []

run-AllFresh : AllFresh run new
unfolding lookup
run-AllFresh = (refl, (tt, (tt, (tt, (tt, (tt, tt))))))

perform_all-IsValid_example : IsValid (perform_all run new)
perform_all-IsValid_example = perform_all-IsValid run new run-AllFresh new-IsValid

t2-NoneFor : NoneFor "t2" run
t2-NoneFor = let ne = ne_of_test "t2" "t1" refl in (ne, (ne, (ne, ((λ x. x), (ne, (ne, tt))))))

perform_all-SameView_example : SameView "t2" new (perform_all run new)
perform_all-SameView_example = perform_all-SameView "t2" run new run-AllFresh new-IsValid t2-NoneFor
