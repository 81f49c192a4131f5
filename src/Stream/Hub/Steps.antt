-- ===== src/Stream/Hub/Steps.antt =====
-- The hub's methods keep its books right and its limits, in any order.
use go_tangra_asset.Common.{
  ℕ, suc, ◌<◌, ◌≡◌, ◌≢◌, inl, inr, refl, sym, ◌∙◌, subst, ap, String, Bool, true, false, Option,
  none, some, ◌∷◌, eqb, arith, Bool-cases, String-discrete,
}
use go_tangra_asset.Memstore.Page.{length}
use go_tangra_asset.Table.{lookup, insert}
use go_tangra_asset.Table.Laws.{lookup-insert_here, lookup-insert_other, insert-IsDistinct}
use go_tangra_asset.Stream.Queue.{Subscription, opened}
use go_tangra_asset.Stream.Hub.{
  TenantSub, Config, Hub, put, one_more, joined, no_conns, tenant_entry,
}
use go_tangra_asset.Stream.Hub.Counts.{among, count_user, count_user-same, count_user-cons}
use go_tangra_asset.Stream.Hub.Within.{same-entry, put-other, IsRight, IsWithin}

no_conns-IsRight :
    (cfg : Config) (subs : ℕ → Subscription) (next : ℕ) → IsRight cfg subs next no_conns
unfolding count_user among
no_conns-IsRight cfg subs next = record {
  counted = λ u. refl;
  users = λ u. ground arith;
  all = ground arith;
  known = λ n a. ground arith;
  once = tt;
}

module _ (cfg : Config) where
  -- The entry that a subscription finds or makes is right.
  pub entry-IsRight :
      (tenant : String) (tail_read : Bool) (h : Hub) (t : TenantSub) (o : Option TenantSub)
      → lookup tenant h.tenants ≡ o
      → IsWithin cfg h
      → tenant_entry o tail_read ≡ some t
      → IsRight cfg h.subs h.next t
  entry-IsRight tenant tail_read h t (some x) e w q =
      subst (IsRight cfg h.subs h.next) (grind (arith, q)) (w.right tenant x e)
  entry-IsRight tenant true h t none e w q =
      subst (IsRight cfg h.subs h.next) (grind (arith, q)) (no_conns-IsRight cfg h.subs h.next)
  entry-IsRight tenant false h t none e w q = ground arith

pub eqb-false : (m n : ℕ) → eqb m n ≡ false → m ≢ n
eqb-false m n e = ground arith

-- A new subscription changes no count of the old ones.
wider-IsRight :
    (cfg : Config) (subs : ℕ → Subscription) (next : ℕ) (s : Subscription) (t : TenantSub)
    → IsRight cfg subs next t
    → IsRight cfg (put next s subs) (suc next) t
wider-IsRight cfg subs next s t r = record {
  counted = λ u.
      r.counted u
      ∙ sym (count_user-same subs (put next s subs) u t.conns (λ n a. grind (arith, r.known n a)));
  users = r.users;
  all = r.all;
  known = λ n a. grind (arith, r.known n a);
  once = r.once;
}

-- The entry with the new subscription in it, where there is room.
joined-IsRight :
    (cfg : Config) (subs : ℕ → Subscription) (next : ℕ) (tenant user : String) (t : TenantSub)
    → IsRight cfg subs next t
    → t.by_user user < cfg.streams_per_user
    → length t.conns < cfg.streams_per_tenant
    → IsRight cfg
        (put next (opened tenant user) subs)
        (suc next)
        (record { conns = next ∷ t.conns; by_user = one_more user t.by_user })
unfolding among
joined-IsRight cfg subs next tenant user t r below room = record {
  counted = λ u. grind (
    arith,
    count_user-cons (put next (opened tenant user) subs) u next t.conns,
    (wider-IsRight cfg subs next (opened tenant user) t r).counted u,
  );
  users = λ u. grind (arith, r.users u, String-discrete u user);
  all = grind (arith);
  known = λ n a. grind (arith, r.known n);
  once = (grind (arith, r.known next), r.once);
}

module _ (cfg : Config) (tenant user : String) (t : TenantSub) (h : Hub) (w : IsWithin cfg h) where
  here : TenantSub
  here = record { conns = h.next ∷ t.conns; by_user = one_more user t.by_user }

  subs' : ℕ → Subscription
  subs' = put h.next (opened tenant user) h.subs

  -- Where a subscription is found afterwards.
  Registered : ℕ → Type 0
  Registered m =
      (x : TenantSub) × (lookup (subs' m).tenant (insert tenant here h.tenants) ≡ some x)
      × (among m x.conns ≡ true)

  Registered-new : (m : ℕ) → m ≡ h.next → Registered m
  unfolding here subs' among Registered
  Registered-new m e =
      (here, lookup-insert_here _ tenant here h.tenants (grind (arith, e)), ground arith)

  Registered-old :
      ((x : TenantSub) → lookup tenant h.tenants ≡ some x → x ≡ t)
      → (m : ℕ) → m ≢ h.next
      → (x : TenantSub) → lookup (h.subs m).tenant h.tenants ≡ some x
      → among m x.conns ≡ true
      → Registered m
  unfolding here subs' among Registered
  Registered-old only m d x found there =
      subst
        (λ k.
          (y : TenantSub) × (lookup k (insert tenant here h.tenants) ≡ some y)
          × (among m y.conns ≡ true))
        (sym (ap (λ s. s.tenant) (put-other (opened tenant user) h.next m h.subs d)))
        (elim (String-discrete (h.subs m).tenant tenant) [
          | yes q ↦
              let e = only x (sym (ap (λ k. lookup k h.tenants) q) ∙ found) in
              (
                here,
                lookup-insert_here _ tenant here h.tenants q,
                grind (arith, subst (λ (y : TenantSub). among m y.conns ≡ true) e there),
              )
          | no q ↦ (x, lookup-insert_other _ tenant here h.tenants q ∙ found, there)
        ])

  pub joined-IsWithin :
      IsRight cfg h.subs h.next t
      → ((x : TenantSub) → lookup tenant h.tenants ≡ some x → x ≡ t)
      → t.by_user user < cfg.streams_per_user
      → length t.conns < cfg.streams_per_tenant
      → IsWithin cfg (joined tenant user t h)
  unfolding here among Registered subs'
  joined-IsWithin r only below room = record {
    distinct = insert-IsDistinct tenant here h.tenants w.distinct;
    right = λ k x e. elim (String-discrete k tenant) [
      | yes q ↦
          subst (IsRight cfg (put h.next (opened tenant user) h.subs) (suc h.next))
            (same-entry _ here x (lookup-insert_here k tenant here h.tenants q) e)
            (joined-IsRight cfg h.subs h.next tenant user t r below room)
      | no q ↦
          wider-IsRight cfg h.subs h.next (opened tenant user) x
            (w.right k x (sym (lookup-insert_other k tenant here h.tenants q) ∙ e))
    ];
    registered = λ m lt o. elim (Bool-cases (eqb m h.next)) [
      | inl new ↦ Registered-new m (ground arith)
      | inr old ↦
          let d = eqb-false m h.next old in
          let (x, found, there) =
            w.registered m (omega arith)
              (sym (ap (λ s. s.closed) (put-other (opened tenant user) h.next m h.subs d)) ∙ o) in
          Registered-old only m d x found there
    ];
  }
