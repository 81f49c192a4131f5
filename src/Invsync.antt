-- ===== src/Invsync.antt =====
-- internal/invsync/diff.go and filter.go: what a sync with the inventory changes, and what the tenant's
-- filter keeps out of it.
pub mod Filter
pub mod Once
pub mod Settled
use Prim.Native.String.{◌++◌}
use go_tangra_asset.Common.{
  String, Bool, true, false, ◌||◌, Option, none, some, List, [], ◌∷◌, ◌==◌, if◌then◌else◌,
  trim_space, str_lt,
}
use go_tangra_asset.Table.{Table, lookup, insert}
use go_tangra_asset.Models.{Asset}
use go_tangra_asset.Memstore.Page.{sort_by}

abbrev pub action_create : String
action_create = "create"

abbrev pub action_update : String
action_update = "update"

abbrev pub action_unchanged : String
action_unchanged = "unchanged"

abbrev pub tag_inventory_host_id : String
tag_inventory_host_id = "inventory_host_id"

-- A host as the inventory, another service, lists it; the time that it was last seen is not used.
pub record Host : Type 0 where
  pub id : String
  pub hostname : String
  pub system_serial : String
  pub manufacturer : String
  pub model : String
  pub os_name : String
  pub os_version : String
  pub os_arch : String
  pub status : String

pub record FieldChange : Type 0 where
  pub old : String
  pub new : String

pub record Change : Type 0 where
  pub host_id : String
  pub hostname : String
  pub serial : String
  pub action : String
  pub asset_id : String
  pub asset_tag : String
  pub changes : Table FieldChange
  pub reason : String

pub record Desired : Type 0 where
  pub name : String
  pub serial : String
  pub model_name : String
  pub tags : Table String

-- `if v := …; v != "" { tags[k] = v }`
abbrev pub set_given : String → String → Table String → Table String
set_given k v tags = if v == "" then tags else insert k v tags

unfoldable pub desired_tags : Host → Table String
desired_tags h = set_given "os_arch" (trim_space h.os_arch) (
    set_given "os_version" (trim_space h.os_version) (
      set_given "os_name" (trim_space h.os_name) (
        set_given "manufacturer" (trim_space h.manufacturer)
          (set_given tag_inventory_host_id h.id []))))

unfoldable pub desired : Host → Desired
unfolding desired_tags
desired h =
    let name = trim_space h.hostname in
    let or_serial = if name == "" then trim_space h.system_serial else name in
    record {
      name = if or_serial == "" then h.id else or_serial;
      serial = trim_space h.system_serial;
      model_name = trim_space h.model;
      tags = desired_tags h;
    }

-- `m[k]`, where a missing key reads as the empty text
abbrev pub tag_at : String → Table String → String
tag_at k tags = elim (lookup k tags) [ none ↦ "" | some v ↦ v ]

pub record Index : Type 0 where
  pub by_serial : Table Asset
  pub by_host_id : Table Asset
  pub by_name : Table Asset

-- The first asset with a key that is not blank keeps it.
abbrev pub enter : String → Asset → Table Asset → Table Asset
enter k a t = if k == "" then t else elim (lookup k t) [ none ↦ insert k a t | some _ ↦ t ]

-- `if k != "" { if a, ok := t[k]; ok { return a, true } }`
abbrev pub found_at : String → Table Asset → Option Asset
found_at k t = if k == "" then none else lookup k t

abbrev pub or_else : Option Asset → Option Asset → Option Asset
or_else none o = o
or_else (some a) o = some a

-- `for k, v := range d.Tags { if a.Tags[k] != v { out["tags."+k] = … } }`
unfoldable pub diff_tags : Table String → Table String → Table FieldChange → Table FieldChange
diff_tags have [] out = out
diff_tags have (e ∷ want) out =
    let changed = insert ("tags." ++ e.0) (record { old = tag_at e.0 have; new = e.1 }) out in
    if tag_at e.0 have == e.1 then diff_tags have want out else diff_tags have want changed

-- `if old != new { out[key] = … }`, where `skip` holds the change back
abbrev pub note_change : Bool → String → String → String → Table FieldChange → Table FieldChange
note_change skip key old new out =
    if old == new || skip then out else insert key (record { old = old; new = new }) out

unfoldable pub diff_one : Asset → Desired → Table FieldChange
unfolding diff_tags
diff_one a d = diff_tags a.tags d.tags (
    note_change (d.model_name == "") "model_name" a.model_name d.model_name (
      note_change (d.serial == "") "serial" a.serial d.serial
        (note_change false "name" a.name d.name [])))

-- `for k, v := range d.Tags { a.Tags[k] = v }`
unfoldable pub put_tags : Table String → Table String → Table String
put_tags [] have = have
put_tags (e ∷ want) have = put_tags want (insert e.0 e.1 have)

unfoldable pub apply_desired : Asset → Desired → Asset
unfolding put_tags
apply_desired a d = record a {
  name = d.name;
  serial = if d.serial == "" then a.serial else d.serial;
  model_name = if d.model_name == "" then a.model_name else d.model_name;
  tags = put_tags d.tags a.tags;
}

unfoldable pub is_claimed : String → List String → Bool
is_claimed id [] = false
is_claimed id (x ∷ xs) = if x == id then true else is_claimed id xs

-- What is left of a match that another host has claimed before.
abbrev pub unclaimed : List String → Option Asset → Option Asset
unclaimed claimed none = none
unclaimed claimed (some a) = if is_claimed a.id claimed then none else some a

abbrev pub change_of : Host → Option Asset → Change
change_of h none = record {
  host_id = h.id;
  hostname = h.hostname;
  serial = (desired h).serial;
  action = action_create;
  asset_id = "";
  asset_tag = "";
  changes = [];
  reason = "";
}
change_of h (some a) =
    let changes = diff_one a (desired h) in
    record {
      host_id = h.id;
      hostname = h.hostname;
      serial = (desired h).serial;
      action = elim changes [ [] ↦ action_unchanged | _ ∷ _ ↦ action_update ];
      asset_id = a.id;
      asset_tag = a.asset_tag;
      changes = changes;
      reason = "";
    }

abbrev pub claim : Option Asset → List String → List String
claim none claimed = claimed
claim (some a) claimed = a.id ∷ claimed

-- `strings.ToLower` is a parameter.
module _ (to_lower : String → String) where
  abbrev pub entered : Index → Asset → Index
  entered ix a = record {
    by_serial = enter (to_lower (trim_space a.serial)) a ix.by_serial;
    by_host_id = enter (tag_at tag_inventory_host_id a.tags) a ix.by_host_id;
    by_name = enter (to_lower (trim_space a.name)) a ix.by_name;
  }

  unfoldable pub index_from : Index → List Asset → Index
  index_from ix [] = ix
  index_from ix (a ∷ rest) = index_from (entered ix a) rest

  unfoldable pub build_index : List Asset → Index
  unfolding index_from
  build_index = index_from (record { by_serial = []; by_host_id = []; by_name = [] })

  -- By the inventory's id, then by serial, then by name.
  unfoldable pub match_host : Index → Host → Option Asset
  match_host ix h = or_else (found_at h.id ix.by_host_id) (
      or_else (found_at (to_lower (trim_space h.system_serial)) ix.by_serial)
        (found_at (to_lower (trim_space h.hostname)) ix.by_name))

  unfoldable pub diff_from : Index → List String → List Host → List Change
  unfolding match_host is_claimed
  diff_from ix claimed [] = []
  diff_from ix claimed (h ∷ hosts) =
      let a = unclaimed claimed (match_host ix h) in
      change_of h a ∷ diff_from ix (claim a claimed) hosts

  unfoldable pub diff : List Host → List Asset → List Change
  unfolding diff_from build_index
  diff hosts assets =
      sort_by (λ x y. str_lt x.hostname y.hostname) (diff_from (build_index assets) [] hosts)
