-- ===== src/Stream/Order.antt =====
-- internal/stream/client.go: `Less` is a strict order on the ids.
use go_tangra_asset.Common.{
  ℕ, Bool, not, ltb, eqb, if◌then◌else◌, String, ℤ, pos_part, neg_part, ◌+◌, ◌<◌, ◌≡◌, ◌⊎◌, true,
  false, arith,
}
use go_tangra_asset.Stream.{less, parse_id}

abbrev IsLess : ℤ × ℤ → ℤ × ℤ → Type 0
IsLess a b =
    (pos_part a.0 + neg_part b.0 < pos_part b.0 + neg_part a.0)
    ⊎ ((pos_part a.0 + neg_part b.0 ≡ pos_part b.0 + neg_part a.0)
        × (pos_part a.1 + neg_part b.1 < pos_part b.1 + neg_part a.1))

abbrev first_then : ℕ → ℕ → ℕ → ℕ → Bool
first_then x y z w = if not (eqb x y) then ltb x y else ltb z w

first_then-true : (x y z w : ℕ) → first_then x y z w ≡ true → (x < y) ⊎ ((x ≡ y) × (z < w))
first_then-true x y z w h = ground arith

true-first_then : (x y z w : ℕ) → (x < y) ⊎ ((x ≡ y) × (z < w)) → first_then x y z w ≡ true
true-first_then x y z w h = ground arith

less-IsLess : (a b : String) → less a b ≡ true → IsLess (parse_id a).0 (parse_id b).0
unfolding less
less-IsLess a b h = first_then-true _ _ _ _ h

IsLess-less : (a b : String) → IsLess (parse_id a).0 (parse_id b).0 → less a b ≡ true
unfolding less
IsLess-less a b h = true-first_then _ _ _ _ h

IsLess-trans : (a b c : ℤ × ℤ) → IsLess a b → IsLess b c → IsLess a c
IsLess-trans a b c p q = ground arith

pub less-irreflexive : (a : String) → less a a ≡ false
unfolding less
less-irreflexive a = ground arith

pub less_trans : (a b c : String) → less a b ≡ true → less b c ≡ true → less a c ≡ true
less_trans a b c p q = IsLess-less a c (
    IsLess-trans (parse_id a).0 (parse_id b).0 (parse_id c).0 (less-IsLess a b p)
      (less-IsLess b c q))
