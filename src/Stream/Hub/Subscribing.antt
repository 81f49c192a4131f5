-- ===== src/Stream/Hub/Subscribing.antt =====
-- The registration of `Subscribe` keeps the hub's books right and its limits.
use go_tangra_asset.Common.{
  ℕ, ◌≡◌, ◌⊎◌, inl, inr, refl, sym, ◌∙◌, subst, ap, String, Bool, true, false, Option, none, some,
  leb, if◌then◌else◌, arith, Bool-cases, String-discrete, ◌||◌,
}
use go_tangra_asset.Memstore.Page.{length}
use go_tangra_asset.Table.{lookup, insert}
use go_tangra_asset.Table.Laws.{lookup-insert_here, lookup-insert_other, insert-IsDistinct}
use go_tangra_asset.Stream.Hub.{admit, TenantSub, Config, Hub, Refused, register, tenant_entry}
use go_tangra_asset.Stream.Hub.Counts.{among}
use go_tangra_asset.Stream.Hub.Within.{IsRight, IsWithin, same-entry}
use go_tangra_asset.Stream.Hub.Steps.{joined-IsWithin, entry-IsRight}

module _ (cfg : Config) where
  -- A tenant's entry that is right may be put in, if it holds what the old one held.
  put_in-IsWithin :
      (tenant : String) (t : TenantSub) (h : Hub)
      → IsWithin cfg h
      → IsRight cfg h.subs h.next t
      → ((x : TenantSub) → lookup tenant h.tenants ≡ some x → x ≡ t)
      → IsWithin cfg (record h { tenants = insert tenant t h.tenants })
  put_in-IsWithin tenant t h w r only = record {
    distinct = insert-IsDistinct tenant t h.tenants w.distinct;
    right = λ k x e. elim (String-discrete k tenant) [
      | yes q ↦
          subst (IsRight cfg h.subs h.next)
            (same-entry _ t x (lookup-insert_here k tenant t h.tenants q) e) r
      | no q ↦ w.right k x (sym (lookup-insert_other k tenant t h.tenants q) ∙ e)
    ];
    registered = λ m lt o.
        let (x, found, there) = w.registered m lt o in
        elim (String-discrete (h.subs m).tenant tenant) [
          | yes q ↦
              let e = only x (sym (ap (λ k. lookup k h.tenants) q) ∙ found) in
              (
                t,
                lookup-insert_here _ tenant t h.tenants q,
                subst (λ (y : TenantSub). among m y.conns ≡ true) e there,
              )
          | no q ↦ (x, lookup-insert_other _ tenant t h.tenants q ∙ found, there)
        ];
  }

  -- The entry that `register` takes is the one that is there.
  entry-same :
      (o : Option TenantSub) (tail_read : Bool) (t x : TenantSub)
      → tenant_entry o tail_read ≡ some t
      → o ≡ some x
      → x ≡ t
  entry-same (some y) tail_read t x q e = grind (arith, q, e)
  entry-same none tail_read t x q e = grind (arith, q, e)

  entry-holds :
      (tenant : String) (tail_read : Bool) (t : TenantSub) (h : Hub)
      → tenant_entry (lookup tenant h.tenants) tail_read ≡ some t
      → (x : TenantSub) → lookup tenant h.tenants ≡ some x
      → x ≡ t
  entry-holds tenant tail_read t h q x e = entry-same (lookup tenant h.tenants) tail_read t x q e

  -- Both branches of a test.
  pub either :
      {A : Type 0} (P : A → Type 0) (b : Bool) (x y : A) → P x → P y → P (if b then x else y)
  either P true x y p q = p
  either P false x y p q = q

  admit-IsWithin :
      (tenant user : String) (tail_read : Bool) (h : Hub)
      → IsWithin cfg h
      → (o : Option TenantSub) → tenant_entry (lookup tenant h.tenants) tail_read ≡ o
      → IsWithin cfg (admit cfg tenant user h o).1
  admit-IsWithin tenant user tail_read h w none q = w
  admit-IsWithin tenant user tail_read h w (some t) q =
      let r = entry-IsRight cfg tenant tail_read h t (lookup tenant h.tenants) refl w q in
      elim (Bool-cases (
        leb cfg.streams_per_user (t.by_user user) || leb cfg.streams_per_tenant (length t.conns))) [
          | inl full ↦ rw full (put_in-IsWithin tenant t h w r (entry-holds tenant tail_read t h q))
          | inr room ↦ rw room (
              joined-IsWithin cfg tenant user t h w r (entry-holds tenant tail_read t h q)
                (ground arith) (ground arith))
        ]

  pub register-IsWithin :
      (tenant user : String) (tail_read : Bool) (h : Hub)
      → IsWithin cfg h
      → IsWithin cfg (register cfg tenant user tail_read h).1
  unfolding register
  register-IsWithin tenant user tail_read h w =
      either (λ (r : (Refused ⊎ ℕ) × Hub). IsWithin cfg r.1) h.stopped _ _ w
        (admit-IsWithin tenant user tail_read h w _ refl)
