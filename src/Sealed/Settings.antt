-- ===== src/Sealed/Settings.antt =====
-- internal/sealed/sealed.go: `Redact`, `Public` and `Merge`.
use go_tangra_asset.Common.{
  String, ◌≡◌, ◌≢◌, refl, sym, subst, String-discrete, Bool, true, false, Option, none, some, List,
  [], ◌∷◌, ◌⊎◌, arith, ◌==◌, if◌then◌else◌, ne_of_test,
}
use go_tangra_asset.Table.{Table, lookup, insert, erase, IsDistinct}
use go_tangra_asset.Table.Laws.{lookup-insert, insert-IsDistinct, lookup-erase, erase-IsDistinct}

-- A value of decoded JSON: a text, or anything else.
pub data Value : Type 0 where
  text other : String → Value

abbrev pub marker : String
marker = "__set__"

-- `str, _ := v.(string)`
abbrev pub text_in : Option Value → String
text_in none = ""
text_in (some (text s)) = s
text_in (some (other s)) = ""

abbrev pub is_present : Option Value → Bool
is_present none = false
is_present (some v) = true

unfoldable pub is_field : String → List String → Bool
is_field k [] = false
is_field k (f ∷ fs) = if k == f then true else is_field k fs

-- One credential field of `Redact`.
abbrev pub redacted : String → Table Value → Table Value
redacted f out =
    if is_present (lookup f out)
    then (if text_in (lookup f out) == "" then erase f out else insert f (text marker) out)
    else out

unfoldable pub redact : Table Value → List String → Table Value
redact out [] = out
redact out (f ∷ fs) = redact (redacted f out) fs

unfoldable pub public_only : Table Value → List String → Table Value
public_only out [] = out
public_only out (f ∷ fs) = public_only (erase f out) fs

-- `if old, ok := stored[f]; ok { out[f] = old } else { delete(out, f) }`
abbrev pub restored : Option Value → String → Table Value → Table Value
restored none f out = erase f out
restored (some old) f out = insert f old out

-- One credential field of `Merge`.
abbrev pub merged : Table Value → Table Value → String → Table Value → Table Value
merged stored incoming f out =
    let in_f = lookup f incoming in
    let old = restored (lookup f stored) f out in
    if is_present in_f
    then (if text_in in_f == marker then old else if text_in in_f == "" then erase f out else out)
    else old

unfoldable pub merge_from : Table Value → Table Value → Table Value → List String → Table Value
merge_from stored incoming out [] = out
merge_from stored incoming out (f ∷ fs) =
    merge_from stored incoming (merged stored incoming f out) fs

unfoldable pub merge : Table Value → Table Value → List String → Table Value
unfolding merge_from
merge stored incoming fields = merge_from stored incoming incoming fields

-- What a reader may see of a value.
abbrev pub shown : Option Value → Option Value
shown o = if is_present o then (if text_in o == "" then none else some (text marker)) else none

shown_again : (o : Option Value) → shown (shown o) ≡ shown o
shown_again o = ground (arith, ne_of_test marker "" refl)

lookup-redacted :
    (f k : String) (out : Table Value)
    → IsDistinct out
    → lookup k (redacted f out) ≡ (if k == f then shown (lookup k out) else lookup k out)
lookup-redacted f k out d =
    ground (arith, lookup-erase k f out d, lookup-insert k f (text marker) out)

redacted-IsDistinct :
    (f : String) (out : Table Value) → IsDistinct out → IsDistinct (redacted f out)
redacted-IsDistinct f out d =
    ground (arith, erase-IsDistinct f out d, insert-IsDistinct f (text marker) out d)

-- A credential field reads as the marker or not at all, and every other field as it is.
pub redact-lookup :
    (fields : List String) (s : Table Value) (k : String)
    → IsDistinct s
    → lookup k (redact s fields) ≡ (if is_field k fields then shown (lookup k s) else lookup k s)
unfolding redact is_field
redact-lookup [] s k d = refl
redact-lookup (f ∷ fs) s k d = ground (
  arith,
  redact-lookup fs (redacted f s) k (redacted-IsDistinct f s d),
  lookup-redacted f k s d,
  shown_again (lookup k s),
)

merged-IsDistinct :
    (stored incoming : Table Value) (f : String) (out : Table Value)
    → IsDistinct out
    → IsDistinct (merged stored incoming f out)
merged-IsDistinct stored incoming f out d = grind (arith, erase-IsDistinct, insert-IsDistinct)

-- The field comes back as the marker, or not at all.
abbrev GivenBack : String → Table Value → Type 0
GivenBack k incoming = (lookup k incoming ≡ none) ⊎ (lookup k incoming ≡ some (text marker))

lookup-merged_other :
    (stored incoming : Table Value) (f k : String) (out : Table Value)
    → IsDistinct out
    → k ≢ f
    → lookup k (merged stored incoming f out) ≡ lookup k out
lookup-merged_other stored incoming f k out d q = grind (arith, lookup-erase, lookup-insert)

lookup-merged :
    (stored incoming : Table Value) (f : String) (out : Table Value)
    → IsDistinct out
    → GivenBack f incoming
    → lookup f (merged stored incoming f out) ≡ lookup f stored
lookup-merged stored incoming f out d back = grind (arith, lookup-erase, lookup-insert)

redact-IsDistinct :
    (fields : List String) (s : Table Value) → IsDistinct s → IsDistinct (redact s fields)
unfolding redact
redact-IsDistinct [] s d = d
redact-IsDistinct (f ∷ fs) s d = redact-IsDistinct fs (redacted f s) (redacted-IsDistinct f s d)

shown-GivenBack :
    (s : Table Value) (fields : List String) (k : String)
    → lookup k (redact s fields) ≡ (if is_field k fields then shown (lookup k s) else lookup k s)
    → is_field k fields ≡ true
    → GivenBack k (redact s fields)
shown-GivenBack s fields k seen h = ground arith

-- A field that comes back as the marker or not at all gets its stored value.
merge_from-lookup :
    (stored incoming : Table Value) (fields : List String) (out : Table Value) (k : String)
    → IsDistinct out
    → (is_field k fields ≡ true → GivenBack k incoming)
    → lookup k (merge_from stored incoming out fields)
      ≡ (if is_field k fields then lookup k stored else lookup k out)
unfolding merge_from is_field
merge_from-lookup stored incoming [] out k d back = refl
merge_from-lookup stored incoming (f ∷ fs) out k d back =
    let out' = merged stored incoming f out in
    let rest =
      merge_from-lookup stored incoming fs out' k (merged-IsDistinct stored incoming f out d)
        (λ h. back (ground arith)) in
    elim (String-discrete k f) [
      | no q ↦ ground (arith, rest, lookup-merged_other stored incoming f k out d q)
      | yes p ↦
          let here =
            lookup-merged stored incoming f out d
              (subst (λ x. GivenBack x incoming) p (back (ground arith))) in
          let at_k : lookup k out' ≡ lookup k stored =
            subst (λ x. lookup x out' ≡ lookup x stored) (sym p) here in
          ground (arith, rest, at_k)
    ]

-- An update that sends back what was read changes no field: credentials that come back as the marker, or
-- not at all, keep their stored values.
pub merge-redact :
    (s : Table Value) (fields : List String) (k : String)
    → IsDistinct s
    → lookup k (merge s (redact s fields) fields) ≡ lookup k s
unfolding merge
merge-redact s fields k d =
    let seen = redact-lookup fields s k d in
    let put_back =
      merge_from-lookup s (redact s fields) fields (redact s fields) k
        (redact-IsDistinct fields s d) (λ h. shown-GivenBack s fields k seen h) in
    ground (arith, seen, put_back)
