-- ===== src/Ids/Order.antt =====
-- Later ids are greater, so that the order of ids is the order of creation.
use go_tangra_asset.Common.{
  ℕ, zero, suc, ◌+◌, ◌*◌, ◌/◌, ◌%◌, ◌^◌, ◌<◌, ◌≤◌, ◌≡◌, refl, Bool, true, false, List, [], ◌∷◌, ltb,
  eqb, arith, if◌then◌else◌, ⊤, ◌⊎◌, inl, inr,
}
use go_tangra_asset.Ids.{Minter, Draw, advance, be_bytes, id_bytes, new_id, new_ids}

-- The order of byte strings, which is the order of the texts that they are written as.
unfoldable pub lex_lt : List ℕ → List ℕ → Bool
lex_lt [] [] = false
lex_lt [] (y ∷ ys) = true
lex_lt (x ∷ xs) [] = false
lex_lt (x ∷ xs) (y ∷ ys) = if ltb x y then true else if eqb x y then lex_lt xs ys else false

lex_lt-same : (x : ℕ) (xs ys : List ℕ) → lex_lt (x ∷ xs) (x ∷ ys) ≡ lex_lt xs ys
unfolding lex_lt
lex_lt-same x xs ys = ground arith

be_bytes-same :
    (n u : ℕ) (xs ys : List ℕ) → lex_lt (be_bytes n u xs) (be_bytes n u ys) ≡ lex_lt xs ys
unfolding be_bytes
be_bytes-same zero u xs ys = refl
be_bytes-same (suc n) u xs ys =
    ground
      (arith, be_bytes-same n (u / 256) (u % 256 ∷ xs) (u % 256 ∷ ys), lex_lt-same (u % 256) xs ys)

lex_lt-head : (x y : ℕ) (xs ys : List ℕ) → x < y → lex_lt (x ∷ xs) (y ∷ ys) ≡ true
unfolding lex_lt
lex_lt-head x y xs ys h = ground arith

split : (u v : ℕ) → u < v → (u / 256 < v / 256) ⊎ ((u / 256 ≡ v / 256) × (u % 256 < v % 256))
split u v h = ground arith

-- A smaller number comes first, whatever follows.
be_bytes-lt :
    (n u v : ℕ) (xs ys : List ℕ)
    → u < v
    → v < 256 ^ n
    → lex_lt (be_bytes n u xs) (be_bytes n v ys) ≡ true
unfolding be_bytes
be_bytes-lt zero u v xs ys less bound = ground arith
be_bytes-lt (suc n) u v xs ys less bound = elim (split u v less) [
  | inl apart ↦ be_bytes-lt n (u / 256) (v / 256) _ _ apart (ground arith)
  | inr (same, low) ↦
      rw (same, be_bytes-same n (v / 256) (u % 256 ∷ xs) (v % 256 ∷ ys))
        (lex_lt-head (u % 256) (v % 256) xs ys low)
]

-- The number that a state stands for: its millisecond, then its sequence number.
abbrev pub stamp : Minter → ℕ
stamp s = s.last * 4096 + s.seq

-- The sequence number has twelve bits.
abbrev pub IsBounded : Minter → Type 0
IsBounded s = s.seq < 4096

advance-stamp :
    (d : Draw) (s : Minter)
    → IsBounded s
    → IsBounded (advance d s) × (stamp s < stamp (advance d s)) × (s.last ≤ (advance d s).last)
unfolding advance
advance-stamp d s h = ground arith

split_stamp :
    (s s' : Minter)
    → IsBounded s
    → IsBounded s'
    → stamp s < stamp s'
    → (s.last < s'.last) ⊎ ((s.last ≡ s'.last) × (s.seq < s'.seq))
split_stamp s s' h h' less = ground arith

seq_bytes-lt :
    (q r : ℕ) (xs ys : List ℕ)
    → q < r
    → r < 4096
    → lex_lt ((0x70 + (q / 256) % 16) ∷ q % 256 ∷ xs) ((0x70 + (r / 256) % 16) ∷ r % 256 ∷ ys)
      ≡ true
unfolding lex_lt
seq_bytes-lt q r xs ys less bound = ground arith

-- The greater stamp has the greater id, whatever the random bytes are.
id_bytes-lt :
    (s s' : Minter) (d d' : Draw)
    → IsBounded s
    → IsBounded s'
    → s'.last < 2 ^ 48
    → stamp s < stamp s'
    → lex_lt (id_bytes s d) (id_bytes s' d') ≡ true
unfolding id_bytes be_bytes
id_bytes-lt s s' d d' h h' bound less = elim (split_stamp s s' h h' less) [
  | inl earlier ↦ be_bytes-lt 6 s.last s'.last _ _ earlier bound
  | inr (same, lower) ↦
      let tails =
        seq_bytes-lt s.seq s'.seq ((0x80 + d.byte8 % 64) ∷ d.tail)
          ((0x80 + d'.byte8 % 64) ∷ d'.tail) lower h' in
      rw (same, be_bytes-same 6 s'.last _ _) tails
]

-- Every id of the list is greater than `x`.
abbrev pub AllAbove : List ℕ → List (List ℕ) → Type 0
AllAbove x [] = ⊤
AllAbove x (y ∷ ys) = (lex_lt x y ≡ true) × AllAbove x ys

-- Each id is less than every later one.
abbrev pub Ascending : List (List ℕ) → Type 0
Ascending [] = ⊤
Ascending (x ∷ xs) = AllAbove x xs × Ascending xs

new_ids-last : (ds : List Draw) (s : Minter) → IsBounded s → s.last ≤ (new_ids ds s).1.last
unfolding new_ids new_id
new_ids-last [] s h = ground arith
new_ids-last (d ∷ ds) s h =
    let (h1, _, later) = advance-stamp d s h in ground (arith, new_ids-last ds (advance d s) h1)

new_ids-AllAbove :
    (ds : List Draw) (s0 s : Minter) (d0 : Draw)
    → IsBounded s0
    → IsBounded s
    → stamp s0 ≤ stamp s
    → (new_ids ds s).1.last < 2 ^ 48
    → AllAbove (id_bytes s0 d0) (new_ids ds s).0
unfolding new_ids new_id
new_ids-AllAbove [] s0 s d0 h0 h le bound = tt
new_ids-AllAbove (d ∷ ds) s0 s d0 h0 h le bound =
    let (h1, greater, later) = advance-stamp d s h in
    let last = new_ids-last ds (advance d s) h1 in
    (
      id_bytes-lt s0 (advance d s) d0 d h0 h1 (ground arith) (ground arith),
      new_ids-AllAbove ds s0 (advance d s) d0 h0 h1 (ground arith) bound,
    )

-- In a run of calls, from a state with a twelve-bit sequence number and as long as the time fits its 48
-- bits, each id is less than every later one, whatever the clock and the random bytes do.
pub new_ids-Ascending :
    (ds : List Draw) (s : Minter)
    → IsBounded s
    → (new_ids ds s).1.last < 2 ^ 48
    → Ascending (new_ids ds s).0
unfolding new_ids new_id
new_ids-Ascending [] s h bound = tt
new_ids-Ascending (d ∷ ds) s h bound =
    let (h1, _, _) = advance-stamp d s h in
    (
      new_ids-AllAbove ds (advance d s) (advance d s) d h1 h1 (ground arith) bound,
      new_ids-Ascending ds (advance d s) h1 bound,
    )
