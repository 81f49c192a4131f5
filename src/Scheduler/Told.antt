-- ===== src/Scheduler/Told.antt =====
-- internal/scheduler/scheduler.go: what a check of a condition leaves in the store.
use go_tangra_asset.Common.{
  String, ◌≡◌, refl, sym, ◌∙◌, ap, subst, Bool, true, false, Option, none, some, [], ◌∷◌, ⊤, arith,
  inl, inr, Bool-cases, Option-cases,
}
use go_tangra_asset.Table.{Table, lookup, insert, find_row, find_entry, IsDistinct}
use go_tangra_asset.Table.Select.{find_entry-lookup}
use go_tangra_asset.Models.{NotifyState}
use go_tangra_asset.Memstore.State.{Mem, Env, Result, call, disarm}
use go_tangra_asset.Memstore.Housekeeping.{
  condition_of, get_notify_state, upsert_notify_state, upserted,
}
use go_tangra_asset.Service.{World}
use go_tangra_asset.Scheduler.{Watch, Report, is_told, notice, noted, should_notify, in_store}

module _ {V : Type 0} (p : V → Bool) where
  -- A row that is written over the one that a search found, and passes the test, is found.
  find_row-insert_over :
      (k : String) (old new : V) (t : Table V)
      → IsDistinct t
      → find_entry p t ≡ some (k, old)
      → p new ≡ true
      → find_row p (insert k new t) ≡ some new
  unfolding find_row find_entry insert lookup
  find_row-insert_over k old new [] d e q = ground arith
  find_row-insert_over k old new (x ∷ t) d e q =
      grind (arith, find_row-insert_over k old new t d.1, find_entry-lookup p k old t d.1)

  find_row-insert_new :
      (k : String) (new : V) (t : Table V)
      → lookup k t ≡ none
      → find_entry p t ≡ none
      → p new ≡ true
      → find_row p (insert k new t) ≡ some new
  unfolding find_row find_entry insert lookup
  find_row-insert_new k new [] l e q = ground arith
  find_row-insert_new k new (x ∷ t) l e q = grind (arith, find_row-insert_new k new t)

-- The store holds the state for the condition.
abbrev pub Holds : String → String → String → Mem → Type 0
Holds tenant key state m =
    (n : NotifyState) × (find_row (condition_of tenant key) m.notify ≡ some n)
    × (n.last_state ≡ state)

upserted-Holds :
    (env : Env) (n : NotifyState) (t : Table NotifyState) (o : Option (String × NotifyState))
    → n.id ≡ ""
    → IsDistinct t
    → lookup env.new_id t ≡ none
    → find_entry (condition_of n.tenant_id n.condition_key) t ≡ o
    → (x : NotifyState) × (find_row
          (condition_of n.tenant_id n.condition_key)
          (insert (upserted env n o).0 (upserted env n o).1 t)
        ≡ some x)
      × (x.last_state ≡ n.last_state)
upserted-Holds env n t none blank d fresh e =
    (_, find_row-insert_new _ _ _ t (ground arith) e (ground arith), refl)
upserted-Holds env n t (some (k, old)) blank d fresh e =
    (_, find_row-insert_over _ k old _ t d e (ground arith), refl)

-- What an upsert that is done writes.
pub upsert-notify :
    (env : Env) (n : NotifyState) (m : Mem)
    → (upsert_notify_state env n m).0 ≡ Result.ok tt
    → (upsert_notify_state env n m).1.notify ≡ (
        let e = upserted env n (find_entry (condition_of n.tenant_id n.condition_key) m.notify) in
        insert e.0 e.1 m.notify)
unfolding upsert_notify_state call disarm
upsert-notify env n m e = ground arith

upsert-Holds :
    (env : Env) (n : NotifyState) (m : Mem)
    → n.id ≡ ""
    → IsDistinct m.notify
    → lookup env.new_id m.notify ≡ none
    → (upsert_notify_state env n m).0 ≡ Result.ok tt
    → Holds n.tenant_id n.condition_key n.last_state (upsert_notify_state env n m).1
upsert-Holds env n m blank d fresh e =
    let (x, found, same) = upserted-Holds env n m.notify _ blank d fresh refl in
    (
      x,
      ap (find_row (condition_of n.tenant_id n.condition_key)) (upsert-notify env n m e) ∙ found,
      same,
    )

-- A read that is not made to fail tells the state that the store holds.
pub Holds-told :
    (tenant key state : String) (m : Mem)
    → Holds tenant key state m
    → m.fail_next "GetNotifyState" ≡ false
    → (is_told (get_notify_state tenant key m).0 state ≡ true)
      × ((get_notify_state tenant key m).1 ≡ m)
unfolding get_notify_state call
Holds-told tenant key state m (n, found, same) clear = ground arith

-- A read that tells the state holds it, and changes nothing.
told-Holds :
    (tenant key state : String) (m : Mem)
    → is_told (get_notify_state tenant key m).0 state ≡ true
    → Holds tenant key state (get_notify_state tenant key m).1
unfolding get_notify_state call disarm
told-Holds tenant key state m h =
    elim (Option-cases (find_row (condition_of tenant key) m.notify)) [
      | inl missing_ ↦ ground arith
      | inr (n, found) ↦ (n, ground arith, ground arith)
    ]

pub get-notify :
    (tenant key : String) (m : Mem) → (get_notify_state tenant key m).1.notify ≡ m.notify
unfolding get_notify_state call disarm
get-notify tenant key m = ground arith

module _ (watch : Watch) (tenant key state : String) where
  noted-Holds :
      (rep rep' : Report) (r : Result ⊤ × Mem) (w w' : World) (b : Bool)
      → (r.0 ≡ Result.ok tt → Holds tenant key state r.1)
      → noted state rep r w ≡ (b, (rep', w'))
      → rep'.errors ≡ rep.errors
      → Holds tenant key state w'.mem
  noted-Holds rep rep' (Result.ok x, m) w w' b h e same =
      subst (λ (o : World). Holds tenant key state o.mem) (ap (λ r. r.1.1) e) (h refl)
  noted-Holds rep rep' (Result.err x, m) w w' b h e same = absurd (ground arith)

  -- The branch where the state was told already, and the other.
  pub should_notify-told :
      (rep : Report) (w : World)
      → is_told (get_notify_state tenant key w.mem).0 state ≡ true
      → should_notify watch tenant key state (rep, w)
        ≡ (false, (rep, in_store (get_notify_state tenant key w.mem).1 w))
  unfolding should_notify
  should_notify-told rep w h = rw h refl

  pub should_notify-new :
      (rep : Report) (w : World)
      → is_told (get_notify_state tenant key w.mem).0 state ≡ false
      → should_notify watch tenant key state (rep, w)
        ≡ noted state rep
            (upsert_notify_state
              (watch.env key)
              (notice watch tenant key state)
              (get_notify_state tenant key w.mem).1)
            (in_store (get_notify_state tenant key w.mem).1 w)
  unfolding should_notify
  should_notify-new rep w h = rw h refl

  pub should_notify-Holds :
      (rep rep' : Report) (w w' : World) (b : Bool)
      → IsDistinct w.mem.notify
      → lookup (watch.env key).new_id w.mem.notify ≡ none
      → should_notify watch tenant key state (rep, w) ≡ (b, (rep', w'))
      → rep'.errors ≡ rep.errors
      → Holds tenant key state w'.mem
  should_notify-Holds rep rep' w w' b d fresh e same =
      elim (Bool-cases (is_told (get_notify_state tenant key w.mem).0 state)) [
        | inl told ↦
            subst (λ (o : Bool × (Report × World)). Holds tenant key state o.1.1.mem)
              (sym (should_notify-told rep w told) ∙ e) (told-Holds tenant key state w.mem told)
        | inr new ↦
            let m = (get_notify_state tenant key w.mem).1 in
            let kept = get-notify tenant key w.mem in
            noted-Holds rep rep'
              (upsert_notify_state (watch.env key) (notice watch tenant key state) m) _ w' b
              (upsert-Holds (watch.env key) (notice watch tenant key state) m refl
                (subst IsDistinct (sym kept) d) (ap (lookup (watch.env key).new_id) kept ∙ fresh))
              (sym (should_notify-new rep w new) ∙ e) same
      ]
