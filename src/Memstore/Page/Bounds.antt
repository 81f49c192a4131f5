-- ===== src/Memstore/Page/Bounds.antt =====
-- How long a page is, and where it starts.
use go_tangra_asset.Common.{
  ℕ, zero, suc, ◌≤◌, String, ◌≡◌, ◌≢◌, Bool, true, false, List, [], ◌∷◌, ℤ, pos, ⊤, arith, ◌==◌,
  str_lt, Bool-cases, inl, inr, ltb_ℤ, ◌&&◌,
}
use go_tangra_asset.Memstore.Page.{length, take, keep, cut, paginate}

module _ {A : Type 0} (p : A → Bool) where
  -- Every element passes the test.
  abbrev pub AllPass : List A → Type 0
  AllPass [] = ⊤
  AllPass (x ∷ xs) = (p x ≡ true) × AllPass xs

  keep-AllPass : (xs : List A) → AllPass (keep p xs)
  unfolding keep
  keep-AllPass [] = tt
  keep-AllPass (x ∷ xs) = elim (Bool-cases (p x)) [
    | inl good ↦ rw good (good, keep-AllPass xs)
    | inr bad ↦ rw bad (keep-AllPass xs)
  ]

  take-AllPass : (n : ℕ) (xs : List A) → AllPass xs → AllPass (take n xs)
  take-AllPass zero xs h = tt
  take-AllPass (suc n) [] h = tt
  take-AllPass (suc n) (x ∷ xs) h = (h.0, take-AllPass n xs h.1)

  cut-AllPass : (limit : ℤ) (xs : List A) → AllPass xs → AllPass (cut limit xs)
  unfolding cut
  cut-AllPass limit xs h =
      elim (Bool-cases (ltb_ℤ (pos 0) limit && ltb_ℤ limit (pos (length xs)))) [
        | inl longer ↦ rw longer (take-AllPass _ xs h)
        | inr fits ↦ rw fits h
      ]

length-take : {A : Type 0} (n : ℕ) (xs : List A) → length (take n xs) ≤ n
length-take zero xs = ground arith
length-take (suc n) [] = ground arith
length-take (suc n) (x ∷ xs) = ground (arith, length-take n xs)

length-cut : {A : Type 0} (n : ℕ) (xs : List A) → length (cut (pos (suc n)) xs) ≤ suc n
unfolding cut
length-cut n xs = ground (arith, length-take (suc n) xs)

-- A page with a limit has no more rows than that, and every row of a page after a cursor has a smaller
-- id than the cursor.
pub paginate_bounds :
    {A : Type 0} (id : A → String) (cursor : String) (n : ℕ) (items : List A)
    → (length (paginate id cursor (pos (suc n)) items) ≤ suc n)
      × (cursor ≢ "" → AllPass (λ x. str_lt (id x) cursor) (paginate id cursor (pos (suc n)) items))
unfolding paginate
paginate_bounds id cursor n items = (
  length-cut n _,
  λ given.
      let after : (cursor == "") ≡ false = ground arith in
      rw after (
        cut-AllPass (λ x. str_lt (id x) cursor) (pos (suc n)) _
          (keep-AllPass (λ x. str_lt (id x) cursor) _)),
)
