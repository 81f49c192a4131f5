-- ===== src/Tests/Places.antt =====
-- The cycle guard of the locations at a small tree.
use Prim.Native.String.{String}
use go_tangra_asset.Common.{
  ◌≡◌, inl, inr, refl, String-discrete, Bool-cases, List, [], ◌∷◌, zero, ne_of_test, subst,
  trim_space, str_lt, ◌==◌, if◌then◌else◌,
}
use go_tangra_asset.Table.{Table, lookup, insert, has, some_row, select, count_rows}
use go_tangra_asset.Table.Laws.{insert-IsDistinct}
use go_tangra_asset.Models.{Location}
use go_tangra_asset.Memstore.State.{Env, Result, ok, err, new, call, disarm}
use go_tangra_asset.Memstore.Page.{paginate, sort_by, insert_by, cut, keep}
use go_tangra_asset.Memstore.Locations.{
  list_locations, create_location, update_location, get_location, fill_location,
}
use go_tangra_asset.Memstore.Calls.{Write, location_create, perform, perform_all}
use go_tangra_asset.Memstore.Invariant.{new-IsValid}
use go_tangra_asset.Memstore.Calls.Invariant.{perform_all-IsValid}
use go_tangra_asset.Authz.{require_tenant}
use go_tangra_asset.Sealed.{seal_string}
use go_tangra_asset.Service.{World, Outcome, done, failed, ◌>>=◌, gate, fault_if, emit, on_store}
use go_tangra_asset.Service.Contacts.{seal_contact, open_contact}
use go_tangra_asset.LocationService.{
  location_id, location_parent, Input, update, get, check_parent, validate, path, seal, present,
  apply, blank,
}
use go_tangra_asset.LocationService.Guards.{IsReparented, location_update-IsAcyclic}
use go_tangra_asset.Tree.{nodes_of, nodes_from, is_seen, climb, is_ancestor}
use go_tangra_asset.Tree.Reparent.{IsAcyclic, is_ancestor-IsAcyclic}
use go_tangra_asset.Tests.{env, ctx, ann}
use go_tangra_asset.Tests.Secrets.{vault}

abbrev location : String → String → Location
location id parent = record (blank (ctx id) ann) { name = id; parent_id = parent }

abbrev rooms : List (Env × Write)
rooms =
    (env "a", location_create (location "a" "")) ∷ (env "b", location_create (location "b" "")) ∷ []

abbrev before_update : World
before_update = record { mem = perform_all rooms new; effects = [] }

abbrev listed_or : List Location → Result (List Location) → List Location
listed_or d (ok rows) = rows
listed_or d (err e) = d

abbrev rows : List Location
rows = listed_or [] (list_locations "t1" before_update.mem).0

rows-listed : (list_locations "t1" before_update.mem).0 ≡ ok rows
unfolding list_locations perform_all perform create_location call disarm some_row has lookup insert
    select paginate sort_by insert_by cut keep fill_location count_rows str_lt String-discrete
    Bool-cases
rows-listed = refl

abbrev under_a : Input
under_a = record {
  name = "B";
  code = "";
  description = "";
  parent_id = "a";
  address = "";
  city = "";
  state = "";
  country = "";
  postal_code = "";
  contact = "";
  phone = "";
  email = "";
  status = "";
  tags = [];
}

abbrev updated : Outcome Location × World
updated = update (ctx "x") vault ann "b" under_a before_update

abbrev answer : Location → Outcome Location → Location
answer d (done l) = l
answer d (failed e) = d

updated-done : updated ≡ (done (answer (location "b" "") updated.0), updated.1)
unfolding update get check_parent validate update_location get_location nodes_of nodes_from path
    seal present apply seal_contact seal_string open_contact is_ancestor climb is_seen
    require_tenant ◌>>=◌ gate fault_if emit on_store trim_space list_locations perform_all perform
    create_location call disarm some_row has lookup insert select paginate sort_by insert_by cut
    keep fill_location count_rows str_lt String-discrete Bool-cases
updated-done = refl

empty-IsAcyclic : IsAcyclic location_parent []
unfolding IsAcyclic lookup
empty-IsAcyclic k = (zero, inr refl)

abbrev row_a : Location
row_a = record (location "a" "") { status = "active" }

abbrev row_of : String → Location → List Location → Location
row_of id d [] = d
row_of id d (l ∷ ls) = if l.id == id then l else row_of id d ls

abbrev root_b : Table Location
root_b = insert "b" (row_of "b" row_a rows) []

rows-nodes : insert "a" (row_of "a" row_a rows) root_b ≡ nodes_of location_id rows
unfolding list_locations perform_all perform create_location call disarm some_row has lookup insert
    select paginate sort_by insert_by cut keep fill_location count_rows str_lt String-discrete
    Bool-cases nodes_of nodes_from
rows-nodes = refl

b_root : (row_of "b" row_a rows).parent_id ≡ ""
unfolding list_locations perform_all perform create_location call disarm some_row has lookup insert
    select paginate sort_by insert_by cut keep fill_location count_rows str_lt String-discrete
    Bool-cases
b_root = refl

a_root : (row_of "a" row_a rows).parent_id ≡ ""
unfolding list_locations perform_all perform create_location call disarm some_row has lookup insert
    select paginate sort_by insert_by cut keep fill_location count_rows str_lt String-discrete
    Bool-cases
a_root = refl

root_b-IsAcyclic : IsAcyclic location_parent root_b
root_b-IsAcyclic =
    is_ancestor-IsAcyclic location_parent [] "b" (row_of "b" row_a rows) tt empty-IsAcyclic
      (ne_of_test "b" "" refl) (inl b_root)

rows-IsAcyclic : IsAcyclic location_parent (nodes_of location_id rows)
rows-IsAcyclic =
    subst (λ t. IsAcyclic location_parent t) rows-nodes
      (is_ancestor-IsAcyclic location_parent root_b "a" (row_of "a" row_a rows)
        (insert-IsDistinct "b" (row_of "b" row_a rows) [] tt) root_b-IsAcyclic
        (ne_of_test "a" "" refl) (inl a_root))

location_update-IsAcyclic_example : IsReparented "b" rows before_update.mem updated.1.mem
location_update-IsAcyclic_example =
    location_update-IsAcyclic (ctx "x") vault ann "b" under_a rows before_update updated.1
      (answer (location "b" "") updated.0)
      (perform_all-IsValid rooms new (tt, (tt, tt)) new-IsValid) (ne_of_test "b" "" refl)
      rows-listed rows-IsAcyclic updated-done
