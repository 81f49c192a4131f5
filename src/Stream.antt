-- ===== src/Stream.antt =====
-- internal/stream/client.go and hub.go: the ids of stream entries, and what may be published to whom.
pub mod Order
pub mod Targets
pub mod Queue
pub mod Delivery
pub mod Hub
use Prim.Native.Char.{Char, code}
use Prim.Native.String.{String, len, ◌++◌}
use go_tangra_asset.Common.{
  ℕ, zero, suc, ◌^◌, ◌⊎◌, inl, inr, ◌+◌, ◌*◌, ◌-◌, Bool, true, false, not, ◌&&◌, ◌||◌, Option, none,
  some, List, [], ◌∷◌, ℤ, pos, negsuc, pos_part, neg_part, Time, ltb, leb, eqb, ltb_ℤ, ◌==◌,
  if◌then◌else◌,
}
use go_tangra_asset.Memstore.Page.{length}

-- strings.SplitN(id, "-", 2), where the separator is there
unfoldable pub cut_dash : String → Option (String × String)
cut_dash String.[] = none
cut_dash (String.◌∷◌ c s) =
    let rest = cut_dash s in
    if eqb (code c) b'-'
    then some ("", s)
    else elim rest [ none ↦ none | some p ↦ some (String.◌∷◌ c p.0, p.1) ]

-- How strconv.ParseUint ends, on 64 bits.
pub data Digits : Type 0 where
  value : ℕ → Digits
  syntax beyond : Digits

-- What the accumulator becomes with one digit more.
abbrev pub with_digit : ℕ → ℕ → Digits
with_digit n d = if ltb (n * 10 + d) (2 ^ 64) then value (n * 10 + d) else beyond

-- The digits after an accumulator; the first failure decides.
unfoldable pub digits : ℕ → String → Digits
digits n String.[] = value n
digits n (String.◌∷◌ c s) =
    let rest = digits (n * 10 + (code c - b'0')) s in
    if leb b'0' (code c) && leb (code c) b'9'
    then elim (with_digit n (code c - b'0')) [ value m ↦ rest | syntax ↦ syntax | beyond ↦ beyond ]
    else syntax

unfoldable pub parse_uint : String → Digits
unfolding digits
parse_uint s = if s == "" then syntax else digits 0 s

abbrev pub negated : ℕ → ℤ
negated n = elim n [ zero ↦ pos 0 | suc k ↦ negsuc k ]

-- strconv.ParseInt(s, 10, 64) without a sign: what it gives, and whether that is without an error. Out
-- of range, it gives the nearest number.
abbrev pub positive : Digits → ℤ × Bool
positive (value n) = if ltb n (2 ^ 63) then (pos n, true) else (pos (2 ^ 63 - 1), false)
positive syntax = (pos 0, false)
positive beyond = (pos (2 ^ 63 - 1), false)

abbrev pub negative : Digits → ℤ × Bool
negative (value n) = if leb n (2 ^ 63) then (negated n, true) else (negated (2 ^ 63), false)
negative syntax = (pos 0, false)
negative beyond = (negated (2 ^ 63), false)

unfoldable pub parse_int : String → ℤ × Bool
unfolding parse_uint
parse_int String.[] = (pos 0, false)
parse_int (String.◌∷◌ c s) =
    if eqb (code c) b'-'
    then negative (parse_uint s)
    else if eqb (code c) b'+'
    then positive (parse_uint s)
    else positive (parse_uint (String.◌∷◌ c s))

-- The millisecond and sequence parts of an id, and whether it is one.
unfoldable pub parse_id : String → (ℤ × ℤ) × Bool
unfolding cut_dash parse_int
parse_id id = elim (cut_dash id) [
  | none ↦ ((pos 0, pos 0), false)
  | some p ↦ let ms = parse_int p.0 in let seq = parse_int p.1 in ((ms.0, seq.0), ms.1 && seq.1)
]

abbrev pub eqb_ℤ : ℤ → ℤ → Bool
eqb_ℤ a b = eqb (pos_part a + neg_part b) (pos_part b + neg_part a)

-- `Less` orders stream ids.
unfoldable pub less : String → String → Bool
unfolding parse_id
less a b =
    let (am, as_) = (parse_id a).0 in
    let (bm, bs) = (parse_id b).0 in if not (eqb_ℤ am bm) then ltb_ℤ am bm else ltb_ℤ as_ bs

-- strings.Split(s, ",")
abbrev pub to_first : Char → List String → List String
to_first c [] = String.◌∷◌ c String.[] ∷ []
to_first c (w ∷ ws) = String.◌∷◌ c w ∷ ws

unfoldable pub split_commas : String → List String
split_commas String.[] = "" ∷ []
split_commas (String.◌∷◌ c s) =
    let rest = split_commas s in if eqb (code c) b',' then "" ∷ rest else to_first c rest

-- strings.Join(to, ",")
unfoldable pub join_commas : List String → String
join_commas [] = ""
join_commas (u ∷ us) = let rest = join_commas us in elim us [ [] ↦ u | _ ∷ _ ↦ u ++ ("," ++ rest) ]

-- `for _, u := range us { if u == user { return true } }`
unfoldable pub is_among : String → List String → Bool
is_among user [] = false
is_among user (u ∷ us) = if u == user then true else is_among user us

-- Whether an entry's recipients include the user.
unfoldable pub targets : String → String → Bool
unfolding split_commas is_among
targets to user = if to == "*" then true else is_among user (split_commas to)

-- strings.ContainsAny(u, ", \n")
unfoldable pub has_separator : String → Bool
has_separator String.[] = false
has_separator (String.◌∷◌ c s) =
    if eqb (code c) b',' || eqb (code c) b' ' || eqb (code c) 10 then true else has_separator s

-- strings.ContainsAny(raw, "\n\r")
unfoldable pub has_line_break : String → Bool
has_line_break String.[] = false
has_line_break (String.◌∷◌ c s) =
    if eqb (code c) 10 || eqb (code c) 13 then true else has_line_break s

abbrev pub is_small : Char → Bool
is_small c = leb b'a' (code c) && leb (code c) b'z'

-- [a-z0-9._-]*
unfoldable pub is_tail : String → Bool
is_tail String.[] = true
is_tail (String.◌∷◌ c s) =
    if is_small c
      || (leb b'0' (code c) && leb (code c) b'9')
      || eqb (code c) b'.'
      || eqb (code c) b'_'
      || eqb (code c) b'-'
    then is_tail s
    else false

-- `^[a-z][a-z0-9._-]{0,63}$`
unfoldable pub is_type : String → Bool
unfolding is_tail
is_type String.[] = false
is_type (String.◌∷◌ c s) = is_small c && leb (len s) 63 && is_tail s

pub data Refusal : Type 0 where
  bad_type reserved bad_targets bad_payload : Refusal

abbrev pub is_reserved : String → Bool
is_reserved typ =
    typ == "issued" || typ == "renewed" || typ == "revoked" || typ == "reset" || typ == "bye"

unfoldable pub validate_type : String → Bool → Option Refusal
unfolding is_type
validate_type typ from_module =
    if not (is_type typ)
    then some bad_type
    else if from_module && is_reserved typ
    then some reserved
    else none

-- What an entry of a tenant's stream holds.
pub record Fields : Type 0 where
  pub to : String
  pub type : String
  pub data_ : String
  pub at : Time

unfoldable pub bad_users : List String → Bool
unfolding has_separator
bad_users [] = false
bad_users (u ∷ us) = if u == "" || has_separator u then true else bad_users us

-- `len(to) > 0`
abbrev pub is_some_user : List String → Bool
is_some_user [] = false
is_some_user (u ∷ us) = true

abbrev pub eqb_Bool : Bool → Bool → Bool
eqb_Bool true b = b
eqb_Bool false b = not b

-- The bytes to send, if the payload marshals, under a JSON validator.
module _ (json_valid : String → Bool) where
  abbrev pub checked_payload : Option String → Option String
  checked_payload none = none
  checked_payload (some raw) =
      if ltb 16384 (len raw) || not (json_valid raw) || has_line_break raw then none else some raw

  -- `PublishID`: the entry that it appends, or why it refuses.
  unfoldable pub publish_id :
      Time → List String → Bool → String → Option String → Bool → Refusal ⊎ Fields
  unfolding validate_type bad_users has_line_break join_commas
  publish_id now to all typ payload from_module = elim (validate_type typ from_module) [
    | some e ↦ inl e
    | none ↦
        if eqb_Bool all (is_some_user to) || ltb 1000 (length to)
        then inl bad_targets
        else elim (checked_payload payload) [
          | none ↦ inl bad_payload
          | some raw ↦
              if not all && bad_users to
              then inl bad_targets
              else inr (record {
                to = if all then "*" else join_commas to;
                type = typ;
                data_ = raw;
                at = now;
              })
        ]
  ]
