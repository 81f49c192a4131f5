-- ===== src/Service/Contacts.antt =====
-- The sealed contact fields of suppliers and locations.
use go_tangra_asset.Common.{String, ◌≡◌, refl, ap}
use go_tangra_asset.Sealed.Opening.{IsLawful, IsRead, open_string-seal_string}
use go_tangra_asset.Sealed.{
  Bytes, Crypto, Draws, Sealing, sealing, refused, seal_string, open_string, ad_contact,
}
use go_tangra_asset.Memstore.State.{Mem}
use go_tangra_asset.Service.Rules.{After, Any}
use go_tangra_asset.Service.{World, Action, seal_failed, pure, fault}
use go_tangra_asset.Service.Keeping.{Keeps, Keeps-pure, Keeps-fault, Gives}

-- The envelope that a service holds, with the random reads for each field.
pub record Vault : Type 0 where
  pub crypto : Crypto
  pub kek : Bytes
  pub draws : String → Draws

abbrev pub of_sealing : Sealing String → Action String
of_sealing (sealing s) = pure s
of_sealing (refused e) = fault (seal_failed e)

-- `s.env.SealString(v, sealed.ADContact(kind, id, field))`
unfoldable pub seal_contact : Vault → String → String → String → String → Action String
seal_contact vault kind id field v = of_sealing (
    seal_string vault.crypto vault.kek (vault.draws field) v
      (ad_contact vault.crypto kind id field))

-- What does not open is blank, so that no ciphertext is shown.
abbrev pub opened_or_blank : Sealing String → String
opened_or_blank (sealing s) = s
opened_or_blank (refused e) = ""

unfoldable pub open_contact : Vault → String → String → String → String → String
open_contact vault kind id field v =
    opened_or_blank (open_string vault.crypto vault.kek v (ad_contact vault.crypto kind id field))

of_sealing-Keeps : (P : Mem → Type 0) (s : Sealing String) → Keeps P (of_sealing s)
of_sealing-Keeps P (sealing s) = Keeps-pure P s
of_sealing-Keeps P (refused e) = Keeps-fault P String (seal_failed e)

-- Sealing leaves the store alone.
pub seal_contact-Keeps :
    (P : Mem → Type 0) (vault : Vault) (kind id field v : String)
    → Keeps P (seal_contact vault kind id field v)
unfolding seal_contact
seal_contact-Keeps P vault kind id field v = of_sealing-Keeps P _

of_sealing-After :
    (s : Sealing String) (w : World) → After (λ b w'. w'.mem ≡ w.mem) Any (of_sealing s w)
unfolding After
of_sealing-After (sealing s) w = refl
of_sealing-After (refused e) w = tt

pub seal_contact-After :
    (vault : Vault) (kind id field v : String) (w : World)
    → After (λ b w'. w'.mem ≡ w.mem) Any (seal_contact vault kind id field v w)
unfolding seal_contact
seal_contact-After vault kind id field v w = of_sealing-After _ w

-- The envelope is lawful, and its reads of random bytes give as many as were asked for.
pub record IsTrusted (vault : Vault) : Type 0 where
  pub lawful : IsLawful vault.crypto
  pub reads : (field : String) → IsRead (vault.draws field)

of_sealing-Gives :
    (R : String → Type 0) (s : Sealing String)
    → ((enc : String) → s ≡ sealing enc → R enc)
    → Gives R (of_sealing s)
unfolding Gives
of_sealing-Gives R (sealing enc) h w = h enc refl
of_sealing-Gives R (refused e) h w = tt

-- What a field is sealed to opens to the field.
pub seal_contact-Gives :
    (vault : Vault) (kind id field v : String)
    → IsTrusted vault
    → Gives (λ enc. open_contact vault kind id field enc ≡ v) (seal_contact vault kind id field v)
unfolding seal_contact open_contact
seal_contact-Gives vault kind id field v t = of_sealing-Gives _ _ (λ enc e. ap opened_or_blank (
    open_string-seal_string vault.crypto t.lawful vault.kek (vault.draws field) v enc
      (ad_contact vault.crypto kind id field) (t.reads field) e))
