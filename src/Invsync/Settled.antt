-- ===== src/Invsync/Settled.antt =====
-- A host whose projection has been written onto an asset leaves nothing to change there.
use go_tangra_asset.Common.{String, ◌≡◌, refl, none, some, [], ◌∷◌, arith}
use go_tangra_asset.Table.{Table, lookup, insert, IsDistinct}
use go_tangra_asset.Table.Laws.{lookup-insert, insert-IsDistinct}
use go_tangra_asset.Models.{Asset}
use go_tangra_asset.Invsync.{
  Host, FieldChange, desired, desired_tags, diff_tags, diff_one, put_tags, apply_desired,
}

put_tags-other :
    (k : String) (want have : Table String)
    → lookup k want ≡ none
    → lookup k (put_tags want have) ≡ lookup k have
unfolding put_tags lookup
put_tags-other k [] have new = refl
put_tags-other k (e ∷ want) have new =
    ground (arith, put_tags-other k want (insert e.0 e.1 have), lookup-insert k e.0 e.1 have)

-- Each wanted tag is there, with its value.
put_tags-lookup :
    (k v : String) (want have : Table String)
    → IsDistinct want
    → lookup k want ≡ some v
    → lookup k (put_tags want have) ≡ some v
unfolding put_tags lookup
put_tags-lookup k v [] have d e = cc
put_tags-lookup k v (x ∷ want) have d e = ground (
  arith,
  put_tags-lookup k v want (insert x.0 x.1 have) d.1,
  put_tags-other k want (insert x.0 x.1 have),
  lookup-insert k x.0 x.1 have,
)

-- Nothing is noted of tags that are all there.
diff_tags-none :
    (have want : Table String) (out : Table FieldChange)
    → IsDistinct want
    → ((k v : String) → lookup k want ≡ some v → lookup k have ≡ some v)
    → diff_tags have want out ≡ out
unfolding diff_tags lookup
diff_tags-none have [] out d all = refl
diff_tags-none have (e ∷ want) out d all =
    let here : lookup e.0 have ≡ some e.1 = all e.0 e.1 (ground arith) in
    let rest = diff_tags-none have want out d.1 (λ k v f. all k v (ground (arith, d.0))) in
    ground (arith, here, rest)

desired_tags-IsDistinct : (h : Host) → IsDistinct (desired_tags h)
unfolding desired_tags
desired_tags-IsDistinct h = grind (arith, insert-IsDistinct)

-- After the sync has written a host's projection onto an asset, another comparison finds no difference.
pub diff_one-apply_desired :
    (a : Asset) (h : Host) → diff_one (apply_desired a (desired h)) (desired h) ≡ []
unfolding diff_one apply_desired desired
diff_one-apply_desired a h =
    let d = desired_tags-IsDistinct h in
    let tags = desired_tags h in
    let same =
      diff_tags-none (put_tags tags a.tags) tags [] d (λ k v. put_tags-lookup k v tags a.tags d) in
    ground (arith, same)
