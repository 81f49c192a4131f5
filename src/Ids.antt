-- ===== src/Ids.antt =====
-- internal/store/ids.go: the ids, as their sixteen bytes; `NewID` writes them in hexadecimal, with
-- dashes at fixed places, which keeps their order.
pub mod Order
use go_tangra_asset.Common.{
  ℕ, zero, suc, ◌+◌, ◌*◌, ◌/◌, ◌%◌, Bool, true, false, List, [], ◌∷◌, leb, ltb, eqb, if◌then◌else◌,
}

-- `idLast` and `idSeq`, a uint16, which the mutex guards.
pub record Minter : Type 0 where
  pub last : ℕ
  pub seq : ℕ

abbrev pub fresh_minter : Minter
fresh_minter = record { last = 0; seq = 0 }

-- What a call draws: the clock's milliseconds, and the random bytes 6, 7, 8 and after.
pub record Draw : Type 0 where
  pub ms : ℕ
  pub byte6 : ℕ
  pub byte7 : ℕ
  pub byte8 : ℕ
  pub tail : List ℕ

-- The part under the mutex: the millisecond and the sequence number of the new id are those it leaves.
unfoldable pub advance : Draw → Minter → Minter
advance d s =
    if leb d.ms s.last
    then (let seq = (s.seq + 1) % 0x1_0000 in
        if leb 4096 seq
        then record { last = s.last + 1; seq = 0 }
        else record { last = s.last; seq = seq })
    else record { last = d.ms; seq = (d.byte6 % 8) * 256 + d.byte7 % 256 }

-- The last `n` bytes of a number, most significant first, in front of others.
unfoldable pub be_bytes : ℕ → ℕ → List ℕ → List ℕ
be_bytes zero u rest = rest
be_bytes (suc n) u rest = be_bytes n (u / 256) (u % 256 ∷ rest)

-- The bytes of an id: the 48-bit time, the version with the sequence number, the variant, and the rest.
unfoldable pub id_bytes : Minter → Draw → List ℕ
unfolding be_bytes
id_bytes s d =
    be_bytes 6 s.last ((0x70 + (s.seq / 256) % 16) ∷ s.seq % 256 ∷ (0x80 + d.byte8 % 64) ∷ d.tail)

unfoldable pub new_id : Draw → Minter → List ℕ × Minter
unfolding advance id_bytes
new_id d s = let s' = advance d s in (id_bytes s' d, s')

-- The ids of a run of calls, and the state after it.
unfoldable pub new_ids : List Draw → Minter → List (List ℕ) × Minter
unfolding new_id
new_ids [] s = ([], s)
new_ids (d ∷ ds) s = let (id, s1) = new_id d s in let (ids, s2) = new_ids ds s1 in (id ∷ ids, s2)
