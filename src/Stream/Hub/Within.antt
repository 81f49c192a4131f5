-- ===== src/Stream/Hub/Within.antt =====
-- The hub's books are right and its limits hold, whatever happens to it.
use go_tangra_asset.Common.{
  ℕ, ◌<◌, ◌≤◌, ◌≡◌, ◌≢◌, inl, inr, refl, sym, ◌∙◌, subst, ap, String, true, false, Option, some,
  List, [], ◌∷◌, arith, Bool-cases, String-discrete,
}
use go_tangra_asset.Memstore.Page.{length}
use go_tangra_asset.Table.{Table, lookup, IsDistinct}
use go_tangra_asset.Table.Laws.{lookup-insert, insert-IsDistinct, lookup-erase, erase-IsDistinct}
use go_tangra_asset.Stream.Queue.{Event, Subscription, push, shut, taken_from}
use go_tangra_asset.Stream.Hub.{
  receive, TenantSub, Config, Hub, put, push_to, remove, one_less, kept_tenant, close,
}
use go_tangra_asset.Stream.Hub.Counts.{
  among, IsOnce, count_user, among-remove, among-remove_other, remove-IsOnce, length-remove,
  count_user-remove, count_user-same,
}

-- A tenant's entry counts its connections by user, each of them once, and is within the limits.
pub record IsRight (cfg : Config) (subs : ℕ → Subscription) (next : ℕ) (t : TenantSub)
    : Type 0 where
  pub counted : (u : String) → t.by_user u ≡ count_user subs u t.conns
  pub users : (u : String) → t.by_user u ≤ cfg.streams_per_user
  pub all : length t.conns ≤ cfg.streams_per_tenant
  pub known : (n : ℕ) → among n t.conns ≡ true → n < next
  pub once : IsOnce t.conns

-- Every tenant's entry is right, and every open subscription stands in its tenant's.
pub record IsWithin (cfg : Config) (h : Hub) : Type 0 where
  pub distinct : IsDistinct h.tenants
  pub right :
      (k : String) (t : TenantSub) → lookup k h.tenants ≡ some t → IsRight cfg h.subs h.next t
  pub registered :
      (n : ℕ)
      → n < h.next
      → (h.subs n).closed ≡ false
      → (t : TenantSub) × (lookup (h.subs n).tenant h.tenants ≡ some t) × (among n t.conns ≡ true)

-- What a push leaves as it was.
push-same :
    (ev : Event) (s : Subscription)
    → ((push ev s).1.user ≡ s.user)
      × ((push ev s).1.tenant ≡ s.tenant)
      × ((push ev s).1.closed ≡ s.closed)
unfolding push
push-same ev s = ground arith

IsRight-same :
    (cfg : Config) (subs subs' : ℕ → Subscription) (next : ℕ) (t : TenantSub)
    → ((n : ℕ) → (subs' n).user ≡ (subs n).user)
    → IsRight cfg subs next t
    → IsRight cfg subs' next t
IsRight-same cfg subs subs' next t same r = record {
  counted = λ u. r.counted u ∙ sym (count_user-same subs subs' u t.conns (λ n a. same n));
  users = r.users;
  all = r.all;
  known = r.known;
  once = r.once;
}

-- Taking an event neither.
taken-same :
    (s : Subscription) (es : List Event)
    → ((taken_from s es).1.user ≡ s.user)
      × ((taken_from s es).1.tenant ≡ s.tenant)
      × ((taken_from s es).1.closed ≡ s.closed)
taken-same s [] = (refl, refl, refl)
taken-same s (e ∷ es) = (refl, refl, refl)

module _ (cfg : Config) (n : ℕ) (h : Hub) (w : IsWithin cfg h) where
  -- A subscription whose user, tenant and end stay as they were.
  put-IsWithin :
      (s : Subscription)
      → (s.user ≡ (h.subs n).user) × (s.tenant ≡ (h.subs n).tenant) × (s.closed ≡ (h.subs n).closed)
      → IsWithin cfg (record h { subs = put n s h.subs })
  put-IsWithin s same = record {
    distinct = w.distinct;
    right = λ k t e. IsRight-same cfg h.subs _ h.next t (λ m. (all_same m).0) (w.right k t e);
    registered = λ m lt open_.
        let (t, found, there) = w.registered m lt (sym (all_same m).2 ∙ open_) in
        (t, ap (λ k. lookup k h.tenants) (all_same m).1 ∙ found, there);
  }
    where
      all_same :
          (m : ℕ)
          → ((put n s h.subs m).user ≡ (h.subs m).user)
            × ((put n s h.subs m).tenant ≡ (h.subs m).tenant)
            × ((put n s h.subs m).closed ≡ (h.subs m).closed)
      all_same m = grind (arith, same)

pub push_to-IsWithin :
    (cfg : Config) (n : ℕ) (ev : Event) (h : Hub) → IsWithin cfg h → IsWithin cfg (push_to n ev h).1
unfolding push_to
push_to-IsWithin cfg n ev h w = put-IsWithin cfg n h w _ (push-same ev (h.subs n))

pub receive-IsWithin :
    (cfg : Config) (n : ℕ) (h : Hub) → IsWithin cfg h → IsWithin cfg (receive n h).1
unfolding receive
receive-IsWithin cfg n h w = put-IsWithin cfg n h w _ (taken-same (h.subs n) (h.subs n).ch)

module _ (tenant : String) (by_user : String → ℕ) (tenants : Table TenantSub)
    (d : IsDistinct tenants) where
  kept-IsDistinct : (ks : List ℕ) → IsDistinct (kept_tenant tenant ks by_user tenants)
  kept-IsDistinct [] = erase-IsDistinct tenant tenants d
  kept-IsDistinct (k ∷ ks) = insert-IsDistinct tenant _ tenants d

  kept-there :
      (n : ℕ) (ks : List ℕ)
      → among n ks ≡ true
      → lookup tenant (kept_tenant tenant ks by_user tenants)
        ≡ some (record { conns = ks; by_user = by_user })
  unfolding among
  kept-there n [] a = ground arith
  kept-there n (k ∷ ks) a = lookup-insert tenant tenant _ tenants ∙ ground arith

  kept-other :
      (k : String) (ks : List ℕ)
      → k ≢ tenant
      → lookup k (kept_tenant tenant ks by_user tenants) ≡ lookup k tenants
  kept-other k [] n = lookup-erase k tenant tenants d ∙ ground arith
  kept-other k (x ∷ ks) n = lookup-insert k tenant _ tenants ∙ ground arith

  kept-only :
      (ks : List ℕ) (t : TenantSub)
      → lookup tenant (kept_tenant tenant ks by_user tenants) ≡ some t
      → t ≡ record { conns = ks; by_user = by_user }
  kept-only [] t e = grind (arith, lookup-erase tenant tenant tenants d)
  kept-only (x ∷ ks) t e =
      grind
        (arith, lookup-insert tenant tenant (record { conns = x ∷ ks; by_user = by_user }) tenants)

-- The entry of the tenant after `n` has gone.
left-IsRight :
    (cfg : Config) (subs : ℕ → Subscription) (next n : ℕ) (t : TenantSub)
    → among n t.conns ≡ true
    → IsRight cfg subs next t
    → IsRight cfg subs next
        (record { conns = remove n t.conns; by_user = one_less (subs n).user t.by_user })
left-IsRight cfg subs next n t a r = record {
  counted = λ u. grind (arith, r.counted u, count_user-remove subs u n t.conns a);
  users = λ u. grind (arith, r.users u);
  all = grind (arith, r.all, length-remove n t.conns a);
  known = λ k b. r.known k (among-remove k n t.conns b);
  once = remove-IsOnce n t.conns r.once;
}

pub same-entry : (o : Option TenantSub) (x y : TenantSub) → o ≡ some x → o ≡ some y → x ≡ y
same-entry o x y e f = grind (arith, e, f)

pub put-other :
    (s : Subscription) (n m : ℕ) (subs : ℕ → Subscription) → m ≢ n → put n s subs m ≡ subs m
put-other s n m subs d = ground arith

close-open :
    (n : ℕ) (h : Hub) (t : TenantSub)
    → (h.subs n).closed ≡ false
    → lookup (h.subs n).tenant h.tenants ≡ some t
    → close n h ≡ record h {
      subs = put n (shut (h.subs n)) h.subs;
      tenants =
          kept_tenant
            (h.subs n).tenant
            (remove n t.conns)
            (one_less (h.subs n).user t.by_user)
            h.tenants;
    }
unfolding close
close-open n h t e found = ground arith

close-closed : (n : ℕ) (h : Hub) → (h.subs n).closed ≡ true → close n h ≡ h
unfolding close
close-closed n h e = ground arith

module _ (cfg : Config) (n : ℕ) (h : Hub) (w : IsWithin cfg h) where
  shut-user : (m : ℕ) → (put n (shut (h.subs n)) h.subs m).user ≡ (h.subs m).user
  shut-user m = ground arith

  open-other : (m : ℕ) → (put n (shut (h.subs n)) h.subs m).closed ≡ false → m ≢ n
  open-other m o = ground arith

  -- An open subscription that is closed leaves its tenant's entry.
  left-IsWithin :
      (t : TenantSub)
      → lookup (h.subs n).tenant h.tenants ≡ some t
      → among n t.conns ≡ true
      → IsWithin cfg (record h {
        subs = put n (shut (h.subs n)) h.subs;
        tenants =
            kept_tenant
              (h.subs n).tenant
              (remove n t.conns)
              (one_less (h.subs n).user t.by_user)
              h.tenants;
      })
  left-IsWithin t e a = record {
    distinct = kept-IsDistinct tenant by h.tenants w.distinct (remove n t.conns);
    right = λ k t' e'. IsRight-same cfg h.subs _ h.next t' shut-user (at k t' e');
    registered = stays;
  }
    where
      tenant : String
      tenant = (h.subs n).tenant

      by : String → ℕ
      by = one_less (h.subs n).user t.by_user

      at :
          (k : String) (t' : TenantSub)
          → lookup k (kept_tenant tenant (remove n t.conns) by h.tenants) ≡ some t'
          → IsRight cfg h.subs h.next t'
      at k t' e' = elim (String-discrete k tenant) [
        | yes q ↦
            subst (IsRight cfg h.subs h.next)
              (sym (
                kept-only tenant by h.tenants w.distinct (remove n t.conns) t' (
                  subst
                    (λ j. lookup j (kept_tenant tenant (remove n t.conns) by h.tenants) ≡ some t') q
                    e')))
              (left-IsRight cfg h.subs h.next n t a (w.right tenant t e))
        | no q ↦
            w.right k t'
              (sym (kept-other tenant by h.tenants w.distinct k (remove n t.conns) q) ∙ e')
      ]

      stays :
          (m : ℕ)
          → m < h.next
          → (put n (shut (h.subs n)) h.subs m).closed ≡ false
          → (t' : TenantSub) × (lookup
                (put n (shut (h.subs n)) h.subs m).tenant
                (kept_tenant tenant (remove n t.conns) by h.tenants)
              ≡ some t')
            × (among m t'.conns ≡ true)
      stays m lt o =
          let same = put-other (shut (h.subs n)) n m h.subs (open-other m o) in
          let (t', found, there) = w.registered m lt (sym (ap (λ s. s.closed) same) ∙ o) in
          subst
            (λ k.
              (x : TenantSub) × (lookup k (kept_tenant tenant (remove n t.conns) by h.tenants)
                ≡ some x)
              × (among m x.conns ≡ true))
            (sym (ap (λ s. s.tenant) same))
            (elim (String-discrete (h.subs m).tenant tenant) [
              | yes q ↦
                  let here = among-remove_other m n t.conns (open-other m o) (
                    subst (λ (x : TenantSub). among m x.conns ≡ true)
                      (same-entry _ t' t found (ap (λ k. lookup k h.tenants) q ∙ e)) there) in
                  (
                    record { conns = remove n t.conns; by_user = by },
                    ap (λ k. lookup k (kept_tenant tenant (remove n t.conns) by h.tenants)) q
                        ∙ kept-there tenant by h.tenants w.distinct m (remove n t.conns) here,
                    here,
                  )
              | no q ↦ (
                t',
                kept-other tenant by h.tenants w.distinct (h.subs m).tenant (remove n t.conns) q
                    ∙ found,
                there,
              )
            ])

module _ (cfg : Config) where
  pub close-IsWithin : (n : ℕ) (h : Hub) → n < h.next → IsWithin cfg h → IsWithin cfg (close n h)
  close-IsWithin n h lt w = elim (Bool-cases (h.subs n).closed) [
    | inl e ↦ subst (IsWithin cfg) (sym (close-closed n h e)) w
    | inr e ↦
        let (t, found, there) = w.registered n lt e in
        subst (IsWithin cfg) (sym (close-open n h t e found))
          (left-IsWithin cfg n h w t found there)
  ]
