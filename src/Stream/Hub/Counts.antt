-- ===== src/Stream/Hub/Counts.antt =====
-- Counting the connections of a user.
use go_tangra_asset.Common.{
  ℕ, suc, ◌+◌, ◌-◌, ◌≡◌, ◌≢◌, refl, String, Bool, true, false, List, [], ◌∷◌, eqb, ◌==◌,
  if◌then◌else◌, arith, ⊤, Bool-cases, inl, inr, sym,
}
use go_tangra_asset.Memstore.Page.{length}
use go_tangra_asset.Stream.Queue.{Subscription}
use go_tangra_asset.Stream.Hub.{remove}

unfoldable pub among : ℕ → List ℕ → Bool
among n [] = false
among n (k ∷ ks) = if eqb n k then true else among n ks

abbrev pub IsOnce : List ℕ → Type 0
IsOnce [] = ⊤
IsOnce (k ∷ ks) = (among k ks ≡ false) × IsOnce ks

-- The subscriptions of the user among `ns`.
unfoldable pub count_user : (ℕ → Subscription) → String → List ℕ → ℕ
count_user subs u [] = 0
count_user subs u (n ∷ ns) =
    let rest = count_user subs u ns in if (subs n).user == u then suc rest else rest

pub among-remove : (k n : ℕ) (ns : List ℕ) → among k (remove n ns) ≡ true → among k ns ≡ true
unfolding among remove
among-remove k n [] h = h
among-remove k n (x ∷ ns) h = grind (arith, among-remove k n ns)

pub among-remove_other :
    (k n : ℕ) (ns : List ℕ) → k ≢ n → among k ns ≡ true → among k (remove n ns) ≡ true
unfolding among remove
among-remove_other k n [] d h = ground arith
among-remove_other k n (x ∷ ns) d h = grind (arith, among-remove_other k n ns)

pub remove-IsOnce : (n : ℕ) (ns : List ℕ) → IsOnce ns → IsOnce (remove n ns)
unfolding among remove
remove-IsOnce n [] h = tt
remove-IsOnce n (x ∷ ns) h = grind (arith, among-remove x n ns, remove-IsOnce n ns)

pub length-remove : (n : ℕ) (ns : List ℕ) → among n ns ≡ true → length (remove n ns) + 1 ≡ length ns
unfolding among remove
length-remove n [] h = ground arith
length-remove n (x ∷ ns) h = grind (arith, length-remove n ns)

abbrev pub one_for : (ℕ → Subscription) → String → ℕ → ℕ
one_for subs u n = if (subs n).user == u then 1 else 0

pub count_user-cons :
    (subs : ℕ → Subscription) (u : String) (n : ℕ) (ns : List ℕ)
    → count_user subs u (n ∷ ns) ≡ one_for subs u n + count_user subs u ns
unfolding count_user
count_user-cons subs u n ns = ground arith

remove-here : (n x : ℕ) (ns : List ℕ) → eqb n x ≡ true → remove n (x ∷ ns) ≡ ns
unfolding remove
remove-here n x ns h = ground arith

remove-there : (n x : ℕ) (ns : List ℕ) → eqb n x ≡ false → remove n (x ∷ ns) ≡ x ∷ remove n ns
unfolding remove
remove-there n x ns h = ground arith

eqb-true : (n x : ℕ) → eqb n x ≡ true → n ≡ x
eqb-true n x h = ground arith

among-there :
    (n x : ℕ) (ns : List ℕ) → eqb n x ≡ false → among n (x ∷ ns) ≡ true → among n ns ≡ true
unfolding among
among-there n x ns h a = ground arith

count_user-removed :
    (subs : ℕ → Subscription) (u : String) (n : ℕ) (ns : List ℕ)
    → among n ns ≡ true
    → one_for subs u n + count_user subs u (remove n ns) ≡ count_user subs u ns
unfolding among
count_user-removed subs u n [] h = ground arith
count_user-removed subs u n (x ∷ ns) h = elim (Bool-cases (eqb n x)) [
  | inl e ↦ rw (remove-here n x ns e, count_user-cons subs u x ns, eqb-true n x e)
  | inr e ↦
      rw
        (
          remove-there n x ns e,
          count_user-cons subs u x ns,
          count_user-cons subs u x (remove n ns),
          sym (count_user-removed subs u n ns (among-there n x ns e h)),
        )
        (omega arith)
]

pub count_user-remove :
    (subs : ℕ → Subscription) (u : String) (n : ℕ) (ns : List ℕ)
    → among n ns ≡ true
    → count_user subs u (remove n ns)
      ≡ (if u == (subs n).user then count_user subs u ns - 1 else count_user subs u ns)
count_user-remove subs u n ns h = grind (arith, count_user-removed subs u n ns h)

-- Only the users count, and only of what is there.
pub count_user-same :
    (subs subs' : ℕ → Subscription) (u : String) (ns : List ℕ)
    → ((n : ℕ) → among n ns ≡ true → (subs' n).user ≡ (subs n).user)
    → count_user subs' u ns ≡ count_user subs u ns
unfolding among count_user
count_user-same subs subs' u [] h = refl
count_user-same subs subs' u (x ∷ ns) h =
    grind (arith, h x, count_user-same subs subs' u ns (λ n a. h n (ground arith)))
