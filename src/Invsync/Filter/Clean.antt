-- ===== src/Invsync/Filter/Clean.antt =====
-- What the settings hold after they have been normalized.
use Prim.Native.String.{len}
use go_tangra_asset.Common.{
  ◌≤◌, String, ◌≡◌, ◌≢◌, subst, Bool, false, ◌||◌, Option, List, [], ◌∷◌, ⊤, ltb, ◌==◌, trim_space,
  arith, Bool-cases, inl, inr,
}
use go_tangra_asset.Memstore.Page.{length}
use go_tangra_asset.Invsync.{is_claimed}
use go_tangra_asset.Invsync.Filter.{
  Checked, accepted, refused, in_front, is_bad, at_most, max_patterns, max_pattern_len,
  normalized_from, normalize_patterns,
}

module _ (to_lower : String → String) (path_match : String → String → Option Bool) where
  -- What each pattern of the settings is, and that none is there twice.
  pub IsClean : List String → List String → Type 0
  IsClean seen [] = ⊤
  IsClean seen (p ∷ ps) =
      (p ≢ "")
      × (len p ≤ max_pattern_len)
      × (is_bad (path_match p "") ≡ false)
      × (is_claimed p seen ≡ false)
      × IsClean (p ∷ seen) ps

  abbrev pub IsCleanResult : List String → Checked → Type 0
  IsCleanResult seen (accepted out) = IsClean seen out
  IsCleanResult seen (refused e) = ⊤

  in_front-IsCleanResult :
      (p : String) (seen : List String) (r : Checked)
      → (p == "" || is_claimed p seen) ≡ false
      → ltb max_pattern_len (len p) ≡ false
      → is_bad (path_match p "") ≡ false
      → IsCleanResult (p ∷ seen) r
      → IsCleanResult seen (in_front p r)
  unfolding IsClean
  in_front-IsCleanResult p seen (accepted out) new short good rest =
      (ground arith, ground arith, good, ground arith, rest)
  in_front-IsCleanResult p seen (refused e) new short good rest = tt

  normalized_from-IsCleanResult :
      (xs seen : List String) → IsCleanResult seen (normalized_from to_lower path_match seen xs)
  unfolding normalized_from IsClean
  normalized_from-IsCleanResult [] seen = tt
  normalized_from-IsCleanResult (x ∷ xs) seen =
      let p = to_lower (trim_space x) in
      elim (Bool-cases (p == "" || is_claimed p seen)) [
        | inl skip ↦ rw skip (normalized_from-IsCleanResult xs seen)
        | inr new ↦ elim (Bool-cases (ltb max_pattern_len (len p))) [
          | inl long ↦ rw (new, long) tt
          | inr short ↦ elim (Bool-cases (is_bad (path_match p ""))) [
            | inl bad ↦ rw (new, short, bad) tt
            | inr good ↦
                rw (new, short, good)
                  (in_front-IsCleanResult p seen _ new short good
                    (normalized_from-IsCleanResult xs (p ∷ seen)))
          ]
        ]
      ]

  -- A list of patterns that is accepted is stored as at most fifty patterns, each well-formed, not empty, at
  -- most two hundred bytes long, and different from those before it.
  pub normalize_patterns-IsClean :
      (xs out : List String)
      → normalize_patterns to_lower path_match xs ≡ accepted out
      → IsClean [] out × (length out ≤ max_patterns)
  unfolding normalize_patterns
  normalize_patterns-IsClean xs out e =
      go (normalized_from to_lower path_match [] xs) (normalized_from-IsCleanResult xs []) e
    where
      go :
          (r : Checked)
          → IsCleanResult [] r
          → elim r as (λ x. Checked) [ accepted o ↦ at_most max_patterns o | refused f ↦ refused f ]
            ≡ accepted out
          → IsClean [] out × (length out ≤ max_patterns)
      go (accepted o) clean f =
          let same : o ≡ out = ground arith in
          let short : length o ≤ max_patterns = ground arith in
          (
            subst (λ ps. IsClean [] ps) same clean,
            subst (λ ps. length ps ≤ max_patterns) same short,
          )
      go (refused x) clean f = cc
