-- ===== src/Tests/Assets.antt =====
-- The asset service on a concrete history: a create, a check-out, an update, a check-in and a delete.
use go_tangra_asset.Common.{List, [], ◌∷◌}
use go_tangra_asset.Authz.{Subjects}
use go_tangra_asset.AssetService.{Ctx}
use go_tangra_asset.AssetService.Held.{AllHeld, empty-AllHeld}
use go_tangra_asset.AssetService.Requests.{
  Request, creates, updates, deletes, assigns, unassigns, serve_all, serve_all-AllHeld,
}
use go_tangra_asset.Common.{◌≡◌, refl, none, String, false, String-discrete, Bool-cases}
use go_tangra_asset.Table.{lookup, insert, has, some_row, update_where}
use go_tangra_asset.Models.{Asset, Assignment, asset_deployable, asset_assigned}
use go_tangra_asset.Memstore.State.{Env, new, call, disarm}
use go_tangra_asset.Memstore.Invariant.{new-IsValid}
use go_tangra_asset.Memstore.Assets.{
  create_asset, get_asset, update_asset, fill_asset, stored_book_value,
}
use go_tangra_asset.Memstore.Assignments.{insert_assignment, close_active_assignment}
use go_tangra_asset.Memstore.Calls.{perform, perform_all, Write, asset_create, assignment_insert}
use go_tangra_asset.Memstore.Calls.Invariant.{perform_all-IsValid}
use go_tangra_asset.Authz.{require_tenant}
use go_tangra_asset.Service.{
  World, Outcome, done, failed, ◌>>=◌, gate, fault_if, emit, on_store, attempt,
}
use go_tangra_asset.AssetService.{View}
use go_tangra_asset.AssetService.Assign.{assign, unassign}
use go_tangra_asset.AssetService.Handover.{
  CheckedOut, CheckedIn, assign-CheckedOut, unassign-CheckedIn,
}
use go_tangra_asset.Tests.{ctx, env, asset, ann, laptop, empty_world}

abbrev history : List (Ctx × Subjects × Request)
history =
    (ctx "a1", ann, creates laptop)
    ∷ (ctx "r1", ann, assigns "a1" "bob" "")
    ∷ (ctx "r2", ann, updates "a1" laptop)
    ∷ (ctx "r3", ann, unassigns "a1" "" "")
    ∷ (ctx "r4", ann, deletes "a1")
    ∷ []

serve_all-AllHeld_example : AllHeld (serve_all history empty_world).mem.assets
serve_all-AllHeld_example = serve_all-AllHeld history empty_world empty-AllHeld

-- A store with one asset, and the open assignment of it.
abbrev of_status : String → String → Asset
of_status status user = record (asset "t1" "a1" "AST-1") { status = status; user_id = user }

abbrev loan : Assignment
loan = record {
  id = "r0";
  tenant_id = "t1";
  asset_id = "a1";
  asset_name = "Laptop";
  user_id = "bob";
  user_name = "Bob";
  action = "assigned";
  assigned_at = 900;
  returned_at = none;
  assigned_by = "ann";
  notes = "";
}

abbrev shelf : List (Env × Write)
shelf = (env "a1", asset_create (of_status asset_deployable "")) ∷ []

abbrev desk : List (Env × Write)
desk =
    (env "a1", asset_create (of_status asset_assigned "bob"))
    ∷ (env "r0", assignment_insert loan)
    ∷ []

abbrev before_out : World
before_out = record { mem = perform_all shelf new; effects = [] }

abbrev before_in : World
before_in = record { mem = perform_all desk new; effects = [] }

-- What an operation answers, if it is done.
abbrev answer : View → Outcome View → View
answer v (done a) = a
answer v (failed e) = v

abbrev some_view : View
some_view = record { asset = asset "t1" "a1" "AST-1"; assignee_name = ""; has_photo = false }

abbrev out : Outcome View × World
out = assign (ctx "r1") ann "a1" "bob" "" before_out

abbrev in_again : Outcome View × World
in_again = unassign (ctx "r1") ann "a1" "" "" before_in

out-done : out ≡ (done (answer some_view out.0), out.1)
unfolding assign unassign perform perform_all create_asset close_active_assignment update_where
    get_asset update_asset fill_asset stored_book_value insert_assignment call disarm insert has
    some_row lookup require_tenant ◌>>=◌ gate fault_if emit on_store attempt String-discrete
    Bool-cases
out-done = refl

in_again-done : in_again ≡ (done (answer some_view in_again.0), in_again.1)
unfolding assign unassign perform perform_all create_asset close_active_assignment update_where
    get_asset update_asset fill_asset stored_book_value insert_assignment call disarm insert has
    some_row lookup require_tenant ◌>>=◌ gate fault_if emit on_store attempt String-discrete
    Bool-cases
in_again-done = refl

assign-CheckedOut_example : CheckedOut "t1" "a1" "bob" before_out.mem out.1.mem
assign-CheckedOut_example =
    assign-CheckedOut (ctx "r1") ann "a1" "bob" "" before_out out.1 (answer some_view out.0)
      (perform_all-IsValid shelf new (tt, tt) new-IsValid) out-done

unassign-CheckedIn_example : CheckedIn "t1" "a1" "" before_in.mem in_again.1.mem
unassign-CheckedIn_example =
    unassign-CheckedIn (ctx "r1") ann "a1" "" "" before_in in_again.1 (answer some_view in_again.0)
      (perform_all-IsValid desk new (tt, (tt, tt)) new-IsValid) in_again-done
