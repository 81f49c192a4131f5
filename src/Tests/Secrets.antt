-- ===== src/Tests/Secrets.antt =====
-- Sealing with a small lawful cipher and encoding, and the theorems on secrets applied to it.
use Prim.Native.Nat.{compare, Ordering}
use Prim.Native.Char.{Char, char, code, nul, IsScalar, IsLt}
use Prim.Native.String.{String}
use package.text.Mathlib.TextEquality.{IsScalar-prop}
use go_tangra_asset.Common.{
  ℕ, zero, suc, ◌+◌, ◌-◌, ◌≡◌, ◌≢◌, refl, ◌∙◌, ap, ◌⊎◌, inl, inr, true, Option, none, some, [], ◌∷◌,
  ◌++◌, eqb, if◌then◌else◌, arith, String-discrete, Bool-cases,
}
use go_tangra_asset.Memstore.Page.{length, take}
use go_tangra_asset.Table.{Table, lookup, IsDistinct}
use go_tangra_asset.Sealed.Settings.{
  Value, text, redact, merge, is_field, shown, redact-lookup, merge-redact,
}
use go_tangra_asset.Models.{Supplier, Location}
use go_tangra_asset.Authz.{is_admin, has_role}
use go_tangra_asset.Service.{World, Outcome, done, failed, ◌>>=◌}
use go_tangra_asset.Service.Contacts.{Vault, IsTrusted, seal_contact}
use go_tangra_asset.SupplierService
use go_tangra_asset.SupplierService.Secrets.{supplier_seal-present}
use go_tangra_asset.LocationService
use go_tangra_asset.LocationService.Secrets.{location_seal-present}
use go_tangra_asset.Tests.{ctx, ann, empty_world}
use go_tangra_asset.Sealed.{
  Bytes, Crypto, Draws, Sealing, sealing, refused, seal, seal_string, open_string,
}
use go_tangra_asset.Sealed.Opening.{
  IsLawful, IsRead, take-append, length-append, open_string-seal_string,
}

-- Whether a number is a character's code, by its three comparisons.
abbrev In : Ordering → Ordering → Type 0
In Ordering.lt o = IsLt o
In Ordering.eq o = ⊥
In Ordering.gt o = ⊥

abbrev Code : Ordering → Ordering → Ordering → Type 0
Code Ordering.lt o p = Unit
Code Ordering.eq o p = In o p
Code Ordering.gt o p = In o p

In-cases : (o p : Ordering) → In o p ⊎ (In o p → ⊥)
In-cases Ordering.lt Ordering.lt = inl tt
In-cases Ordering.lt Ordering.eq = inr (λ x. x)
In-cases Ordering.lt Ordering.gt = inr (λ x. x)
In-cases Ordering.eq p = inr (λ x. x)
In-cases Ordering.gt p = inr (λ x. x)

Code-cases : (o p q : Ordering) → Code o p q ⊎ (Code o p q → ⊥)
Code-cases Ordering.lt p q = inl tt
Code-cases Ordering.eq p q = In-cases p q
Code-cases Ordering.gt p q = In-cases p q

pub IsScalar-cases : (n : ℕ) → IsScalar n ⊎ (IsScalar n → ⊥)
IsScalar-cases n = Code-cases (compare n 55296) (compare 57343 n) (compare n 1114112)

abbrev char_or_nul : (n : ℕ) → IsScalar n ⊎ (IsScalar n → ⊥) → Char
char_or_nul n (inl p) = char n p
char_or_nul n (inr f) = nul

char_or_nul-code :
    (n : ℕ) (p : IsScalar n) (d : IsScalar n ⊎ (IsScalar n → ⊥)) → char_or_nul n d ≡ char n p
char_or_nul-code n p (inl q) = ap (λ r. char n r) (IsScalar-prop n q p)
char_or_nul-code n p (inr f) = absurd (f p)

unfoldable pub codes : String → Bytes
codes String.[] = []
codes (String.◌∷◌ c s) = code c ∷ codes s

unfoldable pub text_of_codes : Bytes → String
text_of_codes [] = String.[]
text_of_codes (n ∷ ns) = String.◌∷◌ (char_or_nul n (IsScalar-cases n)) (text_of_codes ns)

text_of_codes-codes : (s : String) → text_of_codes (codes s) ≡ s
unfolding text_of_codes codes
text_of_codes-codes String.[] = refl
text_of_codes-codes (String.◌∷◌ (char n p) s) =
    ap (λ c. String.◌∷◌ c (text_of_codes (codes s))) (char_or_nul-code n p (IsScalar-cases n))
    ∙ ap (λ t. String.◌∷◌ (char n p) t) (text_of_codes-codes s)

-- Each byte as a run of one letter that another letter ends.
unfoldable pub run : ℕ → String → String
run zero s = String.◌∷◌ (char 98 tt) s
run (suc n) s = String.◌∷◌ (char 97 tt) (run n s)

unfoldable pub encoded : Bytes → String
encoded [] = String.[]
encoded (n ∷ ns) = run n (encoded ns)

abbrev put_first : ℕ → Option Bytes → Option Bytes
put_first n none = none
put_first n (some ns) = some (n ∷ ns)

unfoldable pub decoded : ℕ → String → Option Bytes
decoded n String.[] = some []
decoded n (String.◌∷◌ c s) =
    let more = decoded (suc n) s in
    let next = decoded 0 s in if eqb (code c) 97 then more else put_first n next

decoded-run : (k n : ℕ) (s : String) → decoded k (run n s) ≡ put_first (k + n) (decoded 0 s)
unfolding decoded run
decoded-run k zero s = ap (λ n. put_first n (decoded 0 s)) (omega arith)
decoded-run k (suc n) s =
    decoded-run (suc k) n s ∙ ap (λ n. put_first n (decoded 0 s)) (omega arith)

decoded-encoded : (b : Bytes) → decoded 0 (encoded b) ≡ some b
unfolding encoded decoded
decoded-encoded [] = refl
decoded-encoded (n ∷ ns) = decoded-run 0 n (encoded ns) ∙ grind (arith, decoded-encoded ns)

run-ne-blank : (n : ℕ) (s : String) → run n s ≢ ""
unfolding run
run-ne-blank zero s e = absurd (cc e)
run-ne-blank (suc n) s e = absurd (cc e)

encoded-ne-blank : (b : Bytes) → length b ≢ 0 → encoded b ≢ ""
unfolding encoded
encoded-ne-blank [] d = absurd (d refl)
encoded-ne-blank (n ∷ ns) d = run-ne-blank n (encoded ns)

unfoldable pub zeros : ℕ → Bytes
zeros zero = []
zeros (suc n) = 0 ∷ zeros n

length-zeros : (n : ℕ) → length (zeros n) ≡ n
unfolding zeros
length-zeros zero = refl
length-zeros (suc n) = grind (arith, length-zeros n)

-- A cipher that only adds a tag of zeros.
abbrev crypto : Crypto
crypto = record {
  nonce_size = 12;
  overhead = 16;
  gcm_seal = λ key nonce t ad. t ++ zeros 16;
  gcm_open = λ key nonce sealed ad. some (take (length sealed - 16) sealed);
  base64 = encoded;
  unbase64 = decoded 0;
  bytes_of = codes;
  text_of = text_of_codes;
}

tagged-length : (t : Bytes) → length (t ++ zeros 16) ≡ length t + 16
tagged-length t = length-append t (zeros 16) ∙ ap (λ n. length t + n) (length-zeros 16)

untagged : (t : Bytes) → take (length (t ++ zeros 16) - 16) (t ++ zeros 16) ≡ t
untagged t =
    ap (λ n. take n (t ++ zeros 16)) (grind (arith, tagged-length t)) ∙ take-append t (zeros 16)

crypto-IsLawful : IsLawful crypto
crypto-IsLawful = record {
  nonce_size = refl;
  overhead = refl;
  seal-length = λ key nonce t ad. tagged-length t;
  open-seal = λ key nonce t ad e. ap (λ r. some r) (untagged t);
  unbase64-base64 = decoded-encoded;
  base64_blank = encoded-ne-blank;
  text_of-bytes_of = text_of_codes-codes;
}

abbrev draws : Draws
draws = record {
  data_key = some (zeros 32);
  key_nonce = some (zeros 12);
  text_nonce = some (zeros 12);
}

draws-IsRead : IsRead draws
draws-IsRead = record {
  data_key = λ k e. grind (arith, length-zeros 32, e);
  key_nonce = λ n e. grind (arith, length-zeros 12, e);
  text_nonce = λ n e. grind (arith, length-zeros 12, e);
}

abbrev what_is_sealed : Sealing String → String
what_is_sealed (sealing s) = s
what_is_sealed (refused e) = ""

abbrev phone : String
phone = what_is_sealed (seal_string crypto (zeros 32) draws "555" [])

phone-sealed : seal_string crypto (zeros 32) draws "555" [] ≡ sealing phone
unfolding seal_string seal zeros String-discrete Bool-cases codes
phone-sealed = refl

-- A telephone number.
open_string-seal_string_example : open_string crypto (zeros 32) phone [] ≡ sealing "555"
open_string-seal_string_example =
    open_string-seal_string crypto crypto-IsLawful (zeros 32) draws "555" phone [] draws-IsRead
      phone-sealed

abbrev pub vault : Vault
vault = record { crypto = crypto; kek = zeros 32; draws = λ field. draws }

vault-IsTrusted : IsTrusted vault
vault-IsTrusted = record { lawful = crypto-IsLawful; reads = λ field. draws-IsRead }

abbrev supplier : Supplier
supplier = SupplierService.blank (ctx "s1") ann

-- The stored row, where a seal is done.
abbrev stored_of : {A : Type 0} → A → Outcome A × World → A
stored_of other (done a, w) = a
stored_of other (failed e, w) = other

abbrev sealed_supplier : Supplier
sealed_supplier =
    stored_of supplier
      (SupplierService.seal vault (record supplier { telephone = "555" }) empty_world)

supplier-sealed :
    SupplierService.seal vault (record supplier { telephone = "555" }) empty_world
    ≡ (done sealed_supplier, empty_world)
unfolding SupplierService.seal seal_contact ◌>>=◌ seal_string seal zeros String-discrete Bool-cases
    codes
supplier-sealed = refl

ann-is_admin : is_admin ann ≡ true
unfolding is_admin has_role String-discrete Bool-cases
ann-is_admin = refl

-- A supplier's telephone number, for an admin.
supplier_seal-present_example :
    SupplierService.present vault sealed_supplier ann ≡ record supplier { telephone = "555" }
supplier_seal-present_example =
    supplier_seal-present vault ann (record supplier { telephone = "555" }) sealed_supplier
      empty_world empty_world vault-IsTrusted ann-is_admin supplier-sealed

abbrev location : Location
location = LocationService.blank (ctx "l1") ann

abbrev sealed_location : Location
sealed_location =
    stored_of location (LocationService.seal vault (record location { phone = "555" }) empty_world)

location-sealed :
    LocationService.seal vault (record location { phone = "555" }) empty_world
    ≡ (done sealed_location, empty_world)
unfolding LocationService.seal seal_contact ◌>>=◌ seal_string seal zeros String-discrete Bool-cases
    codes
location-sealed = refl

location_seal-present_example :
    LocationService.present vault sealed_location ann ≡ record location { phone = "555" }
location_seal-present_example =
    location_seal-present vault ann (record location { phone = "555" }) sealed_location empty_world
      empty_world vault-IsTrusted ann-is_admin location-sealed

abbrev settings : Table Value
settings = ("token", text "abc") ∷ ("url", text "http://x") ∷ []

settings-IsDistinct : IsDistinct settings
unfolding lookup String-discrete Bool-cases
settings-IsDistinct = (refl, (refl, tt))

redact-lookup_example : lookup "token" (redact settings ("token" ∷ [])) ≡ (
    if is_field "token" ("token" ∷ [])
    then shown (lookup "token" settings)
    else lookup "token" settings)
redact-lookup_example = redact-lookup ("token" ∷ []) settings "token" settings-IsDistinct

merge-redact_example :
    lookup "token" (merge settings (redact settings ("token" ∷ [])) ("token" ∷ []))
    ≡ lookup "token" settings
merge-redact_example = merge-redact settings ("token" ∷ []) "token" settings-IsDistinct
