-- ===== src/Tests/Events.antt =====
-- The realtime hub on a few events and subscribers.
use Prim.Native.String.{String}
use go_tangra_asset.Common.{
  ◌≡◌, ◌≢◌, ◌≤◌, refl, inr, true, false, some, List, [], ◌∷◌, ◌++◌, String-discrete, Bool-cases,
}
use go_tangra_asset.Memstore.Page.{length}
use go_tangra_asset.Table.{lookup, insert}
use go_tangra_asset.Stream.{
  Fields, publish_id, targets, is_among, validate_type, is_type, is_tail, bad_users, has_separator,
  has_line_break, join_commas,
}
use go_tangra_asset.Stream.Targets.{publish_id-targets}
use go_tangra_asset.Stream.Queue.{Event, Happening, comes, taken, opened, happen_all, IsRising}
use go_tangra_asset.Stream.Delivery.{happen_all-IsRising}
use go_tangra_asset.Stream.Hub.{Config, Hub, TenantSub, new_hub, register, one_more}
use go_tangra_asset.Stream.Hub.Counts.{count_user}
use go_tangra_asset.Stream.Hub.Runs.{made, registered, Reached-limits}

abbrev entry : Fields
entry = record { to = "u1,u2"; type = "asset.assigned"; data_ = "{}"; at = 1000 }

entry-published :
    publish_id (λ raw. true) 1000 ("u1" ∷ "u2" ∷ []) false "asset.assigned" (some "{}") true
    ≡ inr entry
unfolding publish_id validate_type is_type is_tail bad_users has_separator has_line_break
    join_commas String-discrete Bool-cases
entry-published = refl

abbrev users : List String
users = "u1" ∷ "u2" ∷ []

two_users-ne-star : users ≢ "*" ∷ []
two_users-ne-star = λ e. cc e

publish_id-targets_example : targets entry.to "u2" ≡ is_among "u2" users
publish_id-targets_example =
    publish_id-targets (λ raw. true) 1000 "asset.assigned" (some "{}") true users entry "u2"
      two_users-ne-star entry-published

abbrev event : String → Event
event id = record { id = id; type = "asset.assigned"; data_ = "{}" }

-- A replayed event that comes again, and an older one.
abbrev run : List Happening
run =
    comes (event "5-1")
    ∷ taken
    ∷ comes (event "5-1")
    ∷ comes (event "4-9")
    ∷ comes (event "6-0")
    ∷ []

happen_all-IsRising_example :
    IsRising ""
      ((happen_all run (opened "t1" "u1")).0 ++ (happen_all run (opened "t1" "u1")).1.ch)
      (happen_all run (opened "t1" "u1")).1.last
happen_all-IsRising_example = happen_all-IsRising "t1" "u1" run

abbrev config : Config
config = record { streams_per_user = 2; streams_per_tenant = 3 }

abbrev first_open : Hub
first_open = (register config "t1" "u1" true new_hub).1

abbrev both_open : Hub
both_open = (register config "t1" "u1" true first_open).1

-- The books after two streams of one user.
abbrev entry_of_both : TenantSub
entry_of_both = record { conns = 1 ∷ 0 ∷ []; by_user = one_more "u1" (one_more "u1" (λ u. 0)) }

both_open-entry : lookup "t1" both_open.tenants ≡ some entry_of_both
unfolding register lookup insert String-discrete Bool-cases
both_open-entry = refl

Reached-limits_example :
    (length entry_of_both.conns ≤ 3)
    × (count_user both_open.subs "u1" entry_of_both.conns ≤ 2)
    × (entry_of_both.by_user "u1" ≡ count_user both_open.subs "u1" entry_of_both.conns)
Reached-limits_example =
    Reached-limits config both_open "t1" entry_of_both "u1"
      (registered "t1" "u1" true (registered "t1" "u1" true made)) both_open-entry
