-- ===== src/Scheduler/Later.antt =====
-- internal/scheduler/scheduler.go: a condition is told once, whatever is checked in between.
use go_tangra_asset.Common.{
  String, ◌≡◌, refl, sym, ◌∙◌, ap, subst, Bool, false, ◌&&◌, Option, none, some, [], ◌∷◌, ⊤, ◌⊎◌,
  arith, inl, inr, Bool-cases, ◌==◌,
}
use go_tangra_asset.Table.{Table, lookup, insert, find_row, find_entry, IsDistinct}
use go_tangra_asset.Table.Laws.{insert-IsDistinct}
use go_tangra_asset.Table.Select.{find_entry-lookup, Unseen}
use go_tangra_asset.Models.{NotifyState}
use go_tangra_asset.Memstore.State.{Mem, Env, Result, call, disarm}
use go_tangra_asset.Memstore.Housekeeping.{
  condition_of, get_notify_state, upsert_notify_state, upserted,
}
use go_tangra_asset.Service.{World}
use go_tangra_asset.Scheduler.{Watch, Report, is_told, notice, noted, should_notify, in_store}
use go_tangra_asset.Scheduler.Told.{
  Holds-told, get-notify, should_notify-told, should_notify-new, should_notify-Holds,
}

-- What an upsert leaves, whether it is done or fails.
upsert-cases :
    (env : Env) (n : NotifyState) (m : Mem)
    → ((upsert_notify_state env n m).1.notify ≡ m.notify)
      ⊎ ((upsert_notify_state env n m).1.notify ≡ (
          let e = upserted env n (find_entry (condition_of n.tenant_id n.condition_key) m.notify) in
          insert e.0 e.1 m.notify))
unfolding upsert_notify_state call disarm
upsert-cases env n m = elim (Bool-cases (m.fail_next "UpsertNotifyState")) [
  | inl armed ↦ inl (ground arith)
  | inr clear ↦ inr (ground arith)
]

noted-notify :
    (state : String) (rep : Report) (r : Result ⊤ × Mem) (w : World)
    → (noted state rep r w).1.1.mem.notify ≡ r.1.notify
noted-notify state rep (Result.ok x, m) w = refl
noted-notify state rep (Result.err e, m) w = refl

-- The table after a check of a condition.
abbrev upserted_over : Watch → String → String → String → Table NotifyState → Table NotifyState
upserted_over watch tenant key state t =
    let e =
      upserted (watch.env key) (notice watch tenant key state)
        (find_entry (condition_of tenant key) t) in
    insert e.0 e.1 t

should_notify-notify :
    (watch : Watch) (tenant key state : String) (rep : Report) (w : World)
    → ((should_notify watch tenant key state (rep, w)).1.1.mem.notify ≡ w.mem.notify)
      ⊎ ((should_notify watch tenant key state (rep, w)).1.1.mem.notify
          ≡ upserted_over watch tenant key state w.mem.notify)
should_notify-notify watch tenant key state rep w =
    let m = (get_notify_state tenant key w.mem).1 in
    let kept = get-notify tenant key w.mem in
    let n = notice watch tenant key state in
    elim (Bool-cases (is_told (get_notify_state tenant key w.mem).0 state)) [
      | inl told ↦
          inl (
            ap (λ r. r.1.1.mem.notify) (should_notify-told watch tenant key state rep w told)
            ∙ kept)
      | inr new ↦
          let after =
            ap (λ r. r.1.1.mem.notify) (should_notify-new watch tenant key state rep w new)
            ∙ noted-notify state rep (upsert_notify_state (watch.env key) n m) _ in
          elim (upsert-cases (watch.env key) n m) [
            | inl same ↦ inl (after ∙ same ∙ kept)
            | inr wrote ↦ inr (after ∙ wrote ∙ ap (upserted_over watch tenant key state) kept)
          ]
    ]

-- A check leaves one row for each id.
check-IsDistinct :
    (watch : Watch) (tenant key state : String) (rep : Report) (w : World)
    → IsDistinct w.mem.notify
    → IsDistinct (should_notify watch tenant key state (rep, w)).1.1.mem.notify
check-IsDistinct watch tenant key state rep w d =
    elim (should_notify-notify watch tenant key state rep w) [
      | inl same ↦ subst IsDistinct (sym same) d
      | inr wrote ↦ subst IsDistinct (sym wrote) (insert-IsDistinct _ _ w.mem.notify d)
    ]

-- A search does not see a row that fails its test, put where it saw none.
find_row-insert_skip :
    {V : Type 0} (p : V → Bool) (k : String) (v : V) (t : Table V)
    → p v ≡ false
    → Unseen p (lookup k t)
    → find_row p (insert k v t) ≡ find_row p t
unfolding find_row insert lookup
find_row-insert_skip p k v [] h u = ground arith
find_row-insert_skip p k v (x ∷ t) h u = ground (arith, find_row-insert_skip p k v t)

module _ (tenant key : String) where
  upserted-skip :
      (env : Env) (n : NotifyState) (t : Table NotifyState) (o : Option (String × NotifyState))
      → n.id ≡ ""
      → IsDistinct t
      → lookup env.new_id t ≡ none
      → condition_of tenant key n ≡ false
      → find_entry (condition_of n.tenant_id n.condition_key) t ≡ o
      → find_row (condition_of tenant key) (insert (upserted env n o).0 (upserted env n o).1 t)
        ≡ find_row (condition_of tenant key) t
  upserted-skip env n t none blank d fresh other e =
      let free : lookup (upserted env n none).0 t ≡ none = ground arith in
      find_row-insert_skip (condition_of tenant key) (upserted env n none).0 (upserted env n none).1
        t other (subst (Unseen (condition_of tenant key)) (sym free) tt)
  upserted-skip env n t (some (id, ex)) blank d fresh other e =
      let (there, same) =
        find_entry-lookup (condition_of n.tenant_id n.condition_key) id ex t d e in
      let unlike : condition_of tenant key ex ≡ false = ground arith in
      find_row-insert_skip (condition_of tenant key) id (upserted env n (some (id, ex))).1 t other
        (subst (Unseen (condition_of tenant key)) (sym there) unlike)

  -- What may come between two checks of the condition: checks of others, of any state and with new ids that
  -- are not in use, and whatever leaves the table of notices alone.
  pub data Between (w : World) : World → Type 0 where
    nothing : Between w w
    checked :
        {v : World} (watch : Watch) (tenant' key' state : String) (rep : Report)
        → Between w v
        → lookup (watch.env key').new_id v.mem.notify ≡ none
        → (tenant' == tenant && key' == key) ≡ false
        → Between w (should_notify watch tenant' key' state (rep, v)).1.1
    moved : {v : World} (v' : World) → Between w v → v'.mem.notify ≡ v.mem.notify → Between w v'

  Between-same :
      (w v : World)
      → IsDistinct w.mem.notify
      → Between w v
      → IsDistinct v.mem.notify
        × (find_row (condition_of tenant key) v.mem.notify
            ≡ find_row (condition_of tenant key) w.mem.notify)
  Between-same w v d nothing = (d, refl)
  Between-same w v d (checked watch tenant' key' state rep between fresh other) =
      let (d', same) = Between-same w _ d between in
      (
        check-IsDistinct watch tenant' key' state rep _ d',
        elim (should_notify-notify watch tenant' key' state rep _) [
          | inl kept ↦ ap (find_row (condition_of tenant key)) kept ∙ same
          | inr wrote ↦
              ap (find_row (condition_of tenant key)) wrote
              ∙ upserted-skip (watch.env key') (notice watch tenant' key' state) _ _ refl d' fresh
                  other refl
              ∙ same
        ],
      )
  Between-same w v d (moved v' between kept) =
      let (d', same) = Between-same w _ d between in
      (subst IsDistinct (sym kept) d', ap (find_row (condition_of tenant key)) kept ∙ same)

-- A condition is told once: after a check of a state that met no error, with a new id that is not in use
-- and one row for each id, a later check of the same state, with any clock and any report, tells nothing
-- and changes nothing, if its read does not fail and the condition itself was not checked in between; other
-- conditions may have been, with new ids that were not in use, and anything else may have changed.
pub should_notify_once :
    (watch later : Watch) (tenant key state : String) (rep rep' again : Report) (w w' v : World)
    (b : Bool)
    → IsDistinct w.mem.notify
    → lookup (watch.env key).new_id w.mem.notify ≡ none
    → should_notify watch tenant key state (rep, w) ≡ (b, (rep', w'))
    → rep'.errors ≡ rep.errors
    → Between tenant key w' v
    → v.mem.fail_next "GetNotifyState" ≡ false
    → should_notify later tenant key state (again, v) ≡ (false, (again, v))
should_notify_once watch later tenant key state rep rep' again w w' v b d fresh e same between
      clear =
    let (n, found, holds) =
      should_notify-Holds watch tenant key state rep rep' w w' b d fresh e same in
    let d' =
      subst (λ (o : World). IsDistinct o.mem.notify) (ap (λ r. r.1.1) e)
        (check-IsDistinct watch tenant key state rep w d) in
    let still = (Between-same tenant key w' v d' between).1 in
    let (told, read) = Holds-told tenant key state v.mem (n, still ∙ found, holds) clear in
    should_notify-told later tenant key state again v told
    ∙ ap (λ m. (false, (again, in_store m v))) read
