-- ===== src/Tests/Sync.antt =====
-- The inventory sync at concrete hosts and settings.
use go_tangra_asset.Common.{
  ◌≡◌, ◌≤◌, String, String-discrete, Bool-cases, List, [], ◌∷◌, refl, some, true, Option, Bool,
  trim_space,
}
use go_tangra_asset.Models.{Asset}
use go_tangra_asset.Memstore.Page.{length}
use go_tangra_asset.Invsync.{Host, desired, diff_one, apply_desired, diff, is_claimed}
use go_tangra_asset.Invsync.Settled.{diff_one-apply_desired}
use go_tangra_asset.Invsync.Once.{count, is_of, diff-once}
use go_tangra_asset.Invsync.Filter.{accepted, normalized_from, normalize_patterns, max_patterns}
use go_tangra_asset.Invsync.Filter.Clean.{IsClean, normalize_patterns-IsClean}
use go_tangra_asset.Tests.{asset}

abbrev host : String → Host
host id = record {
  id = id;
  hostname = "laptop";
  system_serial = "S-1";
  manufacturer = "Acme";
  model = "X2";
  os_name = "Linux";
  os_version = "";
  os_arch = "amd64";
  status = "active";
}

abbrev laptop_asset : Asset
laptop_asset = asset "t1" "a1" "AST-1"

diff_one-apply_desired_example :
    diff_one (apply_desired laptop_asset (desired (host "h1"))) (desired (host "h1")) ≡ []
diff_one-apply_desired_example = diff_one-apply_desired laptop_asset (host "h1")

-- Two hosts with the asset's serial number.
diff-once_example :
    count (is_of "a1") (diff (λ s. s) (host "h1" ∷ host "h2" ∷ []) (laptop_asset ∷ [])) ≤ 1
diff-once_example = diff-once (λ s. s) "a1" (host "h1" ∷ host "h2" ∷ []) (laptop_asset ∷ [])

abbrev any_match : String → String → Option Bool
any_match p v = some true

abbrev patterns : List String
patterns = "lab-*" ∷ " lab-*" ∷ "" ∷ "*.test" ∷ []

abbrev kept : List String
kept = "lab-*" ∷ "*.test" ∷ []

patterns-kept : normalize_patterns (λ s. s) any_match patterns ≡ accepted kept
unfolding normalize_patterns normalized_from is_claimed trim_space String-discrete Bool-cases
patterns-kept = refl

normalize_patterns-IsClean_example :
    IsClean (λ s. s) any_match [] kept × (length kept ≤ max_patterns)
normalize_patterns-IsClean_example =
    normalize_patterns-IsClean (λ s. s) any_match patterns kept patterns-kept
