-- ===== src/SupplierService/Secrets.antt =====
-- The supplier's contact fields, sealed and shown.
use go_tangra_asset.Common.{◌≡◌, refl, true}
use go_tangra_asset.Models.{Supplier}
use go_tangra_asset.Authz.{Subjects, is_admin}
use go_tangra_asset.Service.{World, done}
use go_tangra_asset.Service.Contacts.{Vault, IsTrusted, seal_contact-Gives}
use go_tangra_asset.Service.Keeping.{Gives, Gives-bind_given, Gives-pure, Gives-done}
use go_tangra_asset.SupplierService.{supplier_kind, seal, present}

-- What an admin is shown of a sealed row is the row.
seal-Gives :
    (vault : Vault) (subj : Subjects) (row : Supplier)
    → IsTrusted vault
    → is_admin subj ≡ true
    → Gives (λ sealed_row. present vault sealed_row subj ≡ row) (seal vault row)
unfolding seal present
seal-Gives vault subj row t admin =
    Gives-bind_given _ _ _ _
      (seal_contact-Gives vault supplier_kind row.id "contact_person" row.contact_person t)
      (λ a ea.
        Gives-bind_given _ _ _ _
          (seal_contact-Gives vault supplier_kind row.id "telephone" row.telephone t)
          (λ b eb.
            Gives-bind_given _ _ _ _
              (seal_contact-Gives vault supplier_kind row.id "email" row.email t)
              (λ c ec. Gives-pure _ _ (rw (admin, ea, eb, ec) refl))))

-- With a lawful cipher and encoding and full random reads, the supplier that an admin is shown is the one
-- that was sealed.
pub supplier_seal-present :
    (vault : Vault) (subj : Subjects) (row stored : Supplier) (w w' : World)
    → IsTrusted vault
    → is_admin subj ≡ true
    → seal vault row w ≡ (done stored, w')
    → present vault stored subj ≡ row
supplier_seal-present vault subj row stored w w' t admin e =
    Gives-done _ _ stored w w' (seal-Gives vault subj row t admin) e
