-- ===== src/Tests/Systems.antt =====
-- The services as one system, and the scheduler, on small runs.
use go_tangra_asset.Common.{
  String, ◌≡◌, ◌&&◌, ◌==◌, inl, inr, sym, ap, ◌∙◌, some, [], ◌∷◌, refl, true, false, none,
  String-discrete, Bool-cases, ne_of_test,
}
use go_tangra_asset.Table.{count_rows, lookup, insert, find_row, find_entry}
use go_tangra_asset.Memstore.State.{Mem, Result, new, call}
use go_tangra_asset.Memstore.Stats.{Stats, amount, tenant_stats}
use go_tangra_asset.Memstore.Stats.Counts.{tenant_stats-count_rows}
use go_tangra_asset.Memstore.Invariant.{new-IsValid}
use go_tangra_asset.Authz.{Subjects}
use go_tangra_asset.Service.{World, forbidden}
use go_tangra_asset.Service.Bystander.{IsUnmoved}
use go_tangra_asset.Services.{asset_create, serve, start, after}
use go_tangra_asset.Services.Tenants.{History-IsUnmoved}
use go_tangra_asset.Services.Refused.{serve-refused}
use go_tangra_asset.Scheduler.{
  Watch, Report, should_notify, empty_report, each, license_of, state_at,
}
use go_tangra_asset.Models.{License, lic_active, lic_expired}
use go_tangra_asset.Memstore.Licenses.{update_license}
use go_tangra_asset.Memstore.Housekeeping.{get_notify_state, upsert_notify_state}
use go_tangra_asset.Scheduler.Later.{should_notify_once, checked, nothing}
use go_tangra_asset.Scheduler.Lapse.{each-IsExpired, HasLapsed, IsIn}
use go_tangra_asset.Scheduler.Onward.{IsExpired}
use go_tangra_asset.Tests.{ctx, env, ann, laptop, asset, empty_world}
use go_tangra_asset.Tests.Secrets.{vault}

abbrev later : World
later = (serve (ctx "a1") vault ann (asset_create laptop) empty_world).1

History-IsUnmoved_example : IsUnmoved "t2" new later.mem
History-IsUnmoved_example =
    History-IsUnmoved "t2" empty_world later
      (after (ctx "a1") vault ann (asset_create laptop) start (ne_of_test "t2" "t1" refl))
      new-IsValid

abbrev nobody : Subjects
nobody = record ann { tenant_id = "" }

serve-refused_example :
    serve (ctx "a1") vault nobody (asset_create laptop) empty_world
    ≡ (some (forbidden "tenant required"), empty_world)
serve-refused_example = serve-refused (ctx "a1") vault nobody (asset_create laptop) empty_world refl

abbrev watch : Watch
watch = record {
  now = 1000;
  warranty_window = 100;
  license_window = 100;
  insurance_window = 100;
  env = env;
  add_months = λ t n. t;
  itoa = λ n. "0";
}

abbrev report : Report
report = empty_report "t1"

-- The world after the first check.
abbrev told_world : World
told_world = (should_notify watch "t1" "license:l1" "soon" (report, empty_world)).1.1

first-told :
    should_notify watch "t1" "license:l1" "soon" (report, empty_world)
    ≡ (true, (report, told_world))
unfolding should_notify get_notify_state upsert_notify_state call find_row find_entry insert
    String-discrete Bool-cases
first-told = refl

new-unused : lookup "license:l1" empty_world.mem.notify ≡ none
unfolding lookup
new-unused = refl

-- The world after a check of another condition.
abbrev other_world : World
other_world =
    (should_notify (record watch { env = λ key. env "n2" }) "t1" "license:l2" "soon"
      (report, told_world)).1.1

others-clear : other_world.mem.fail_next "GetNotifyState" ≡ false
unfolding should_notify get_notify_state upsert_notify_state call find_row find_entry insert
    String-discrete Bool-cases
others-clear = refl

told-unused : lookup "n2" told_world.mem.notify ≡ none
unfolding should_notify get_notify_state upsert_notify_state call find_row find_entry insert lookup
    String-discrete Bool-cases
told-unused = refl

should_notify_once_example :
    should_notify watch "t1" "license:l1" "soon" (report, other_world)
    ≡ (false, (report, other_world))
unfolding String-discrete Bool-cases
should_notify_once_example =
    should_notify_once watch watch "t1" "license:l1" "soon" report report report empty_world
      told_world other_world true tt new-unused first-told refl
      (checked (record watch { env = λ key. env "n2" }) "t1" "license:l2" "soon" report nothing
        told-unused refl)
      others-clear

-- A license whose end is past.
abbrev editor : License
editor = record {
  id = "l1";
  tenant_id = "t1";
  name = "Editor";
  supplier_id = "";
  purchase_date = none;
  purchase_cost = laptop.purchase_cost;
  order_number = "";
  valid_from = none;
  valid_to = some 500;
  notes = "";
  status = lic_active;
  metadata = [];
  created_by = "ann";
  created_at = 0;
  updated_at = 0;
}

abbrev licensed : World
licensed = record empty_world { mem = record new { licenses = ("l1", editor) ∷ [] } }

editor-clean :
    (each (license_of watch "t1") (editor ∷ []) (report, licensed)).0.errors ≡ report.errors
unfolding each license_of should_notify state_at update_license get_notify_state upsert_notify_state
    call lookup find_row find_entry insert String-discrete Bool-cases
editor-clean = refl

editor-HasLapsed : HasLapsed watch editor
unfolding HasLapsed String-discrete Bool-cases
editor-HasLapsed = (500, refl, refl, refl)

editor-active :
    (x : License) → IsIn x (editor ∷ []) → x.status ≡ lic_expired → IsExpired x.id licensed.mem
editor-active x (inl here) e =
    absurd (ne_of_test lic_active lic_expired refl (ap (λ l. l.status) (sym here) ∙ e))
editor-active x (inr there) e = absurd there

each-IsExpired_example :
    IsExpired "l1" (each (license_of watch "t1") (editor ∷ []) (report, licensed)).1.mem
each-IsExpired_example =
    each-IsExpired watch "t1" (editor ∷ []) (report, licensed) editor editor-active editor-clean
      (inl refl) editor-HasLapsed

abbrev stocked : Mem
stocked = record new { assets = ("a1", asset "t1" "a1" "T-1") ∷ [] }

tenant_stats-count_rows_example :
    (st : Stats) × (tenant_stats (λ x y. x) (env "a2") "t1" stocked ≡ (Result.ok st, stocked))
    × (st.total_assets ≡ count_rows (λ a. a.tenant_id == "t1") stocked.assets)
    × ((k : String)
        → amount k st.assets_by_status
          ≡ count_rows (λ a. a.tenant_id == "t1" && k == a.status) stocked.assets)
tenant_stats-count_rows_example = tenant_stats-count_rows (λ x y. x) (env "a2") "t1" stocked refl
