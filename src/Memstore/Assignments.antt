-- ===== src/Memstore/Assignments.antt =====
-- internal/memstore/memstore.go, `// ---- assignments`.
use go_tangra_asset.Common.{
  String, Bool, true, false, ◌&&◌, Option, none, some, List, ⊤, ◌==◌, if◌then◌else◌, Time, ℤ, ltb,
  eqb, str_lt,
}
use go_tangra_asset.Table.{insert, has, select, update_where}
use go_tangra_asset.Models.{Assignment, action_assigned}
use go_tangra_asset.Memstore.State.{
  Env, Op, conflict, ◌>>=◌, ◌>>◌, pure, get, put, refuse_if, call, or_now, or_default,
}
use go_tangra_asset.Memstore.Page.{sort_by, cut}

-- The row as it is stored.
abbrev pub stored_assignment : Env → Assignment → Assignment
stored_assignment env a = record a {
  id = or_default a.id env.new_id;
  action = or_default a.action action_assigned;
  assigned_at = or_now env a.assigned_at;
}

unfoldable pub insert_assignment : Env → Assignment → Op ⊤
insert_assignment env a = call "InsertAssignment" do
  m ← get
  let row = stored_assignment env a
  refuse_if (has row.id m.assignments) conflict
  put (record m { assignments = insert row.id row m.assignments })

abbrev is_open : Option Time → Bool
is_open none = true
is_open (some t) = false

-- An assignment of the asset that has not been returned.
abbrev pub active : String → String → Assignment → Bool
active tenant asset a = a.tenant_id == tenant && a.asset_id == asset && is_open a.returned_at

unfoldable pub close_active_assignment : Env → String → String → Time → Op ⊤
close_active_assignment env tenant asset at = call "CloseActiveAssignment" do
  m ← get
  put (record m {
    assignments =
        update_where (active tenant asset) (λ a. record a { returned_at = some (or_now env at) })
          m.assignments;
  })

-- Newest first: by assignment time, then id.
unfoldable pub newest_assignment : Assignment → Assignment → Bool
newest_assignment a b =
    if eqb a.assigned_at b.assigned_at then str_lt b.id a.id else ltb b.assigned_at a.assigned_at

unfoldable pub list_assignments : String → String → ℤ → Op (List Assignment)
list_assignments tenant asset limit = call "ListAssignments" do
  m ← get
  let out = select (λ a. a.tenant_id == tenant && a.asset_id == asset) m.assignments
  pure (cut limit (sort_by newest_assignment out))
