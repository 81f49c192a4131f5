-- ===== src/Stream/Targets.antt =====
-- internal/stream/hub.go: an event reaches the users it is published to, and no others.
use Prim.Native.Char.{Char}
use Prim.Native.String.append
use Prim.Native.String.{String, ◌++◌}
use go_tangra_asset.Common.{
  Time, Option, inr, sym, ap, ◌∙◌, ◌≡◌, ◌≢◌, refl, Bool, true, false, List, [], ◌∷◌, arith,
}
use go_tangra_asset.Stream.{
  publish_id, Fields, is_some_user, split_commas, join_commas, has_separator, is_among, targets,
  bad_users,
}

-- A text without separators stays whole.
split_commas-alone : (u : String) → has_separator u ≡ false → split_commas u ≡ u ∷ []
unfolding has_separator split_commas
split_commas-alone String.[] h = refl
split_commas-alone (String.◌∷◌ c s) h = grind (arith, split_commas-alone s)

put_first : (c : Char) (t : String) → String.◌∷◌ c String.[] ++ t ≡ String.◌∷◌ c t
put_first c t = append.cons c String.[] t ∙ ap (λ r. String.◌∷◌ c r) (append.nil t)

-- After a comma comes the next.
split_commas-comma : (rest : String) → split_commas ("," ++ rest) ≡ "" ∷ split_commas rest
unfolding split_commas
split_commas-comma rest = ap split_commas (put_first _ rest)

split_commas-first :
    (u rest : String)
    → has_separator u ≡ false
    → split_commas (u ++ ("," ++ rest)) ≡ u ∷ split_commas rest
unfolding has_separator split_commas
split_commas-first String.[] rest h =
    ap split_commas (append.nil ("," ++ rest)) ∙ split_commas-comma rest
split_commas-first (String.◌∷◌ c s) rest h =
    ap split_commas (append.cons c s ("," ++ rest)) ∙ grind (arith, split_commas-first s rest)

-- What was joined comes apart again.
pub split_commas-join_commas :
    (u : String) (us : List String)
    → bad_users (u ∷ us) ≡ false
    → split_commas (join_commas (u ∷ us)) ≡ u ∷ us
unfolding bad_users join_commas
split_commas-join_commas u [] h = split_commas-alone u (ground arith)
split_commas-join_commas u (w ∷ ws) h =
    grind (arith, split_commas-join_commas w ws, split_commas-first u (join_commas (w ∷ ws)))

split_commas-star : split_commas "*" ≡ "*" ∷ []
unfolding split_commas
split_commas-star = refl

joined-ne-star :
    (u : String) (us : List String)
    → bad_users (u ∷ us) ≡ false
    → u ∷ us ≢ "*" ∷ []
    → join_commas (u ∷ us) ≢ "*"
joined-ne-star u us h n e =
    n (sym (split_commas-join_commas u us h) ∙ ap split_commas e ∙ split_commas-star)

module _ (json_valid : String → Bool) (now : Time) (typ : String) (payload : Option String)
    (from_module : Bool) where
  -- What is accepted for named users names at least one, none of them with a separator, and joins them.
  accepted :
      (to : List String) (f : Fields)
      → publish_id json_valid now to false typ payload from_module ≡ inr f
      → (bad_users to ≡ false) × (is_some_user to ≡ true) × (f.to ≡ join_commas to)
  unfolding publish_id
  accepted to f e = ground arith

  -- The entry that is published for a list of users, which is not the one user `*`, is delivered to the
  -- users of that list and to no others.
  pub publish_id-targets :
      (to : List String) (f : Fields) (user : String)
      → to ≢ "*" ∷ []
      → publish_id json_valid now to false typ payload from_module ≡ inr f
      → targets f.to user ≡ is_among user to
  unfolding targets publish_id
  publish_id-targets [] f user n e = ground arith
  publish_id-targets (u ∷ us) f user n e =
      let (good, some_user, joined) = accepted (u ∷ us) f e in
      grind (arith, joined, joined-ne-star u us good n, split_commas-join_commas u us good)
