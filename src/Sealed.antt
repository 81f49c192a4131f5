-- ===== src/Sealed.antt =====
-- internal/sealed/sealed.go: secrets at rest. An envelope seals a text under a key of its own, which it
-- wraps; and settings hide, keep and replace their credential fields.
pub mod Opening
pub mod Settings
use Prim.Native.String.{◌++◌ as join}
use go_tangra_asset.Common.{
  ℕ, zero, suc, ◌+◌, ◌-◌, String, Bool, true, false, Option, none, some, List, [], ◌∷◌, ◌++◌, ltb,
  ◌==◌, if◌then◌else◌,
}
use go_tangra_asset.Memstore.Page.{length, take}

abbrev pub Bytes : Type 0
Bytes = List ℕ

-- crypto/cipher's GCM over a key, encoding/base64, and Go's conversions between texts and bytes.
pub record Crypto : Type 0 where
  pub nonce_size : ℕ
  pub overhead : ℕ
  pub gcm_seal : Bytes → Bytes → Bytes → Bytes → Bytes
  pub gcm_open : Bytes → Bytes → Bytes → Bytes → Option Bytes
  pub base64 : Bytes → String
  pub unbase64 : String → Option Bytes
  pub bytes_of : String → Bytes
  pub text_of : Bytes → String

-- ErrTampered, ErrTooLarge, and a failure to read random bytes
pub data SealError : Type 0 where
  tampered too_large no_randomness : SealError

pub data Sealing (A : Type 0) : Type 0 where
  sealing : A → Sealing A
  refused : SealError → Sealing A

-- The three reads of one `Seal`: the data key and the two nonces.
pub record Draws : Type 0 where
  pub data_key : Option Bytes
  pub key_nonce : Option Bytes
  pub text_nonce : Option Bytes

abbrev pub max_settings_bytes : ℕ
max_settings_bytes = 8192

abbrev pub drop {ℓ} : {A : Type ℓ} → ℕ → List A → List A
drop zero xs = xs
drop (suc n) [] = []
drop (suc n) (x ∷ xs) = drop n xs

infixl 5 ◌>>=◌
abbrev pub ◌>>=◌ : {A B : Type 0} → Sealing A → (A → Sealing B) → Sealing B
sealing a >>= f = f a
refused e >>= f = refused e

abbrev pub or_refuse : {A : Type 0} → Option A → SealError → Sealing A
or_refuse none e = refused e
or_refuse (some a) e = sealing a

abbrev pub ad_contact : Crypto → String → String → String → Bytes
ad_contact c kind id field =
    c.bytes_of (join "contact:" (join kind (join ":" (join id (join ":" field)))))

-- `kek` is the key of the envelope.
module _ (c : Crypto) (kek : Bytes) where
  -- nonce | wrapped data key | nonce | ciphertext
  abbrev pub layout : Bytes → Bytes → Bytes → Bytes → Bytes → Bytes
  layout data_key n1 n2 text ad =
      n1 ++ (c.gcm_seal kek n1 data_key ad ++ (n2 ++ c.gcm_seal data_key n2 text ad))

  unfoldable pub seal : Draws → Bytes → Bytes → Sealing Bytes
  seal d text ad =
      if ltb max_settings_bytes (length text)
      then refused too_large
      else or_refuse d.data_key no_randomness >>= λ data_key.
          or_refuse d.key_nonce no_randomness >>= λ n1.
          or_refuse d.text_nonce no_randomness >>= λ n2. sealing (layout data_key n1 n2 text ad)

  unfoldable pub open_blob : Bytes → Bytes → Sealing Bytes
  open_blob blob ad =
      let ns = c.nonce_size in
      let wrap_len = 32 + c.overhead in
      let rest = drop (ns + wrap_len) blob in
      if ltb (length blob) (ns + wrap_len + ns + 16)
      then refused tampered
      else or_refuse (c.gcm_open kek (take ns blob) (take wrap_len (drop ns blob)) ad) tampered
        >>= λ data_key. or_refuse (c.gcm_open data_key (take ns rest) (drop ns rest) ad) tampered

  unfoldable pub seal_string : Draws → String → Bytes → Sealing String
  seal_string d s ad =
      if s == "" then sealing "" else seal d (c.bytes_of s) ad >>= λ blob. sealing (c.base64 blob)

  unfoldable pub open_string : String → Bytes → Sealing String
  open_string enc ad =
      if enc == ""
      then sealing ""
      else or_refuse (c.unbase64 enc) tampered >>= λ blob.
          open_blob blob ad >>= λ text. sealing (c.text_of text)
