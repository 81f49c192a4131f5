-- ===== src/Invsync/Filter.antt =====
-- internal/invsync/filter.go: the patterns of the settings, and which hosts they keep out.
pub mod Clean
use Prim.Native.String.{len}
use go_tangra_asset.Common.{
  ℕ, suc, ◌+◌, ◌≤◌, String, ◌≡◌, ◌≢◌, refl, Bool, true, false, not, ◌&&◌, ◌||◌, Option, none, some,
  List, [], ◌∷◌, ⊤, ltb, ◌==◌, if◌then◌else◌, trim_space, arith,
}
use go_tangra_asset.Table.{Table, lookup}
use go_tangra_asset.Models.{InvSyncSettings}
use go_tangra_asset.Memstore.Page.{length}
use go_tangra_asset.Invsync.{Host, Change, tag_at, is_claimed}

-- SettingsValidationError, by what is wrong
pub data Refusal : Type 0 where
  too_long bad_pattern too_many : Refusal

pub data Checked : Type 0 where
  accepted : List String → Checked
  refused : Refusal → Checked

abbrev pub max_patterns : ℕ
max_patterns = 50

abbrev pub max_pattern_len : ℕ
max_pattern_len = 200

abbrev is_empty_list : {A : Type 0} → List A → Bool
is_empty_list [] = true
is_empty_list (x ∷ xs) = false

abbrev matches : Option Bool → Bool
matches none = false
matches (some b) = b

abbrev pub is_bad : Option Bool → Bool
is_bad none = true
is_bad (some b) = false

abbrev at_most : ℕ → List String → Checked
at_most n out = if ltb n (length out) then refused too_many else accepted out

abbrev in_front : String → Checked → Checked
in_front p (accepted out) = accepted (p ∷ out)
in_front p (refused e) = refused e

-- `strings.ToLower` and `path.Match` are parameters; a match of a malformed pattern is `none`.
module _ (to_lower : String → String) (path_match : String → String → Option Bool) where
  -- The loop of `normalizePatterns`, which ends at the first pattern refused. `seen` holds the patterns
  -- kept so far.
  unfoldable pub normalized_from : List String → List String → Checked
  unfolding is_claimed
  normalized_from seen [] = accepted []
  normalized_from seen (x ∷ xs) =
      let p = to_lower (trim_space x) in
      let skipped = normalized_from seen xs in
      let kept = normalized_from (p ∷ seen) xs in
      if p == "" || is_claimed p seen
      then skipped
      else if ltb max_pattern_len (len p)
      then refused too_long
      else if is_bad (path_match p "")
      then refused bad_pattern
      else in_front p kept

  unfoldable pub normalize_patterns : List String → Checked
  unfolding normalized_from
  normalize_patterns xs = elim (normalized_from [] xs) [
    | accepted out ↦ at_most max_patterns out
    | refused e ↦ refused e
  ]

  unfoldable pub match_any : List String → String → Bool
  match_any [] value = false
  match_any (p ∷ ps) value =
      let rest = match_any ps value in
      if matches (path_match p (to_lower value)) then true else rest

  unfoldable pub exclusion : InvSyncSettings → Host → String → String
  unfolding match_any
  exclusion f h role =
      if f.skip_retired && h.status == "retired"
      then "retired"
      else if f.skip_stale && h.status == "stale"
      then "stale"
      else if f.exclude_vms && role == "vm"
      then "virtual_machine"
      else if f.exclude_containers && role == "container"
      then "container"
      else if match_any f.hostname_exclude h.hostname
      then "hostname_excluded"
      else if not (is_empty_list f.hostname_include)
          && not (match_any f.hostname_include h.hostname)
      then "hostname_not_included"
      else if match_any f.os_exclude h.os_name
      then "os_excluded"
      else if not (is_empty_list f.os_include) && not (match_any f.os_include h.os_name)
      then "os_not_included"
      else ""

  -- The change of one host, marked if the filter keeps it out.
  abbrev pub filtered : InvSyncSettings → Table String → Host → Change → Change
  filtered f roles h c =
      let r = exclusion f h (tag_at h.id roles) in
      if r == "" then c else record c { action = "excluded"; reason = r; changes = [] }

  -- `byHost[id]`, where a missing host reads as the zero value
  abbrev pub host_at : String → Table Host → Host
  host_at id hosts = elim (lookup id hosts) [
    | none ↦ record {
      id = "";
      hostname = "";
      system_serial = "";
      manufacturer = "";
      model = "";
      os_name = "";
      os_version = "";
      os_arch = "";
      status = "";
    }
    | some h ↦ h
  ]

  unfoldable pub apply_filter :
      List Change → Table Host → InvSyncSettings → Table String → List Change
  unfolding exclusion
  apply_filter [] by_host f roles = []
  apply_filter (c ∷ cs) by_host f roles =
      filtered f roles (host_at c.host_id by_host) c ∷ apply_filter cs by_host f roles
