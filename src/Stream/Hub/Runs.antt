-- ===== src/Stream/Hub/Runs.antt =====
-- The hub as a system of steps: its methods, in any order and any number, from a new hub.
use go_tangra_asset.Common.{
  ℕ, ◌<◌, ◌≤◌, ◌≡◌, ◌⊎◌, inl, inr, refl, sym, ◌∙◌, subst, String, Bool, true, Option, none, some,
  List, [], ◌∷◌, ◌++◌, arith, ℤ, ltb_ℤ, not, ◌||◌, ◌==◌,
}
use go_tangra_asset.Table.{Table, lookup, IsDistinct}
use go_tangra_asset.Stream.{targets, parse_id}
use go_tangra_asset.Stream.Queue.{Event, Subscription}
use go_tangra_asset.Stream.Hub.{
  TenantSub, Config, Hub, Entry, new_hub, receive, push_to, close, register, push_all, replay,
  resume, reset_event, addressed, push_each, dispatch, close_each, stop, conns_of, all_conns,
}
use go_tangra_asset.Stream.Hub.Counts.{among, count_user}
use go_tangra_asset.Memstore.Page.{length}
use go_tangra_asset.Stream.Hub.Within.{IsWithin, receive-IsWithin, push_to-IsWithin, close-IsWithin}
use go_tangra_asset.Stream.Hub.Subscribing.{register-IsWithin, either}

-- Pointers that are in use.
abbrev AllKnown : List ℕ → ℕ → Type 0
AllKnown ns next = (n : ℕ) → among n ns ≡ true → n < next

push_to-next : (n : ℕ) (ev : Event) (h : Hub) → (push_to n ev h).1.next ≡ h.next
unfolding push_to
push_to-next n ev h = refl

close-next : (n : ℕ) (h : Hub) → (close n h).next ≡ h.next
unfolding close
close-next n h = ground arith

known_head : (n : ℕ) (ns : List ℕ) (next : ℕ) → AllKnown (n ∷ ns) next → n < next
unfolding among
known_head n ns next k = k n (ground arith)

known_tail : (n : ℕ) (ns : List ℕ) (next : ℕ) → AllKnown (n ∷ ns) next → AllKnown ns next
unfolding among
known_tail n ns next k m a = k m (ground arith)

among-addressed :
    (e : Entry) (subs : ℕ → Subscription) (n : ℕ) (ns : List ℕ)
    → among n (addressed e subs ns) ≡ true
    → among n ns ≡ true
unfolding among addressed
among-addressed e subs n [] a = a
among-addressed e subs n (x ∷ ns) a = grind (arith, among-addressed e subs n ns)

among-append :
    (n : ℕ) (ns ks : List ℕ) → among n (ns ++ ks) ≡ true → (among n ns ≡ true) ⊎ (among n ks ≡ true)
unfolding among
among-append n [] ks a = inr a
among-append n (x ∷ ns) ks a = grind (arith, among-append n ns ks)

-- Every connection stands in the entry of some tenant.
among-all_conns :
    (n : ℕ) (ts : Table TenantSub)
    → IsDistinct ts
    → among n (all_conns ts) ≡ true
    → (k : String) × (t : TenantSub) × (lookup k ts ≡ some t) × (among n t.conns ≡ true)
unfolding all_conns lookup among
among-all_conns n [] d a = absurd (ground arith)
among-all_conns n ((k, t) ∷ ts) d a = elim (among-append n t.conns (all_conns ts) a) [
  | inl b ↦ (k, t, ground arith, b)
  | inr b ↦
      let (j, x, found, there) = among-all_conns n ts d.1 b in
      (j, x, grind (arith, found, d.0), there)
]

module _ (cfg : Config) where
  push_each-IsWithin :
      (ev : Event) (ns : List ℕ) (h : Hub)
      → AllKnown ns h.next
      → IsWithin cfg h
      → IsWithin cfg (push_each ev ns h)
  unfolding push_each
  push_each-IsWithin ev [] h k w = w
  push_each-IsWithin ev (n ∷ ns) h k w =
      let pushed = (push_to n ev h).1 in
      let v = push_to-IsWithin cfg n ev h w in
      let lt = subst (λ m. n < m) (sym (push_to-next n ev h)) (known_head n ns h.next k) in
      push_each-IsWithin ev ns _
        (subst (AllKnown ns)
          (sym (
            either cfg (λ (x : Hub). x.next ≡ h.next) (push_to n ev h).0 pushed (close n pushed)
              (push_to-next n ev h) (close-next n pushed ∙ push_to-next n ev h)))
          (known_tail n ns h.next k))
        (either cfg (IsWithin cfg) (push_to n ev h).0 pushed (close n pushed) v
          (close-IsWithin cfg n pushed lt v))

  close_each-IsWithin :
      (ns : List ℕ) (h : Hub) → AllKnown ns h.next → IsWithin cfg h → IsWithin cfg (close_each ns h)
  unfolding close_each
  close_each-IsWithin [] h k w = w
  close_each-IsWithin (n ∷ ns) h k w =
      close_each-IsWithin ns (close n h)
        (subst (AllKnown ns) (sym (close-next n h)) (known_tail n ns h.next k))
        (close-IsWithin cfg n h (known_head n ns h.next k) w)

  conns-AllKnown :
      (h : Hub) (w : IsWithin cfg h) (tenant : String) (o : Option TenantSub)
      → lookup tenant h.tenants ≡ o
      → AllKnown (conns_of o) h.next
  unfolding among
  conns-AllKnown h w tenant none e n a = ground arith
  conns-AllKnown h w tenant (some t) e n a = (w.right tenant t e).known n a

  dispatch-IsWithin :
      (tenant : String) (e : Entry) (h : Hub) → IsWithin cfg h → IsWithin cfg (dispatch tenant e h)
  unfolding dispatch
  dispatch-IsWithin tenant e h w =
      push_each-IsWithin e.event _ h
        (λ n a.
          conns-AllKnown h w tenant (lookup tenant h.tenants) refl n
            (among-addressed e h.subs n _ a))
        w

  stop-IsWithin : (h : Hub) → IsWithin cfg h → IsWithin cfg (stop h)
  unfolding stop
  stop-IsWithin h w =
      close_each-IsWithin (all_conns h.tenants) (record h { stopped = true })
        (λ n a.
          let (k, t, found, there) = among-all_conns n h.tenants w.distinct a in
          (w.right k t found).known n there)
        (record { distinct = w.distinct; right = w.right; registered = w.registered })

-- The hubs that the methods lead to, with any callers and anything that the client reads; a replay is a
-- run of pushes, between which anything may come.
pub data Reached (cfg : Config) : Hub → Type 0 where
  made : Reached cfg new_hub
  registered :
      {h : Hub} (tenant user : String) (tail_read : Bool)
      → Reached cfg h
      → Reached cfg (register cfg tenant user tail_read h).1
  pushed : {h : Hub} (n : ℕ) (ev : Event) → Reached cfg h → Reached cfg (push_to n ev h).1
  dispatched :
      {h : Hub} (tenant : String) (e : Entry) → Reached cfg h → Reached cfg (dispatch tenant e h)
  received : {h : Hub} (n : ℕ) → Reached cfg h → Reached cfg (receive n h).1
  left : {h : Hub} (n : ℕ) → n < h.next → Reached cfg h → Reached cfg (close n h)
  ended : {h : Hub} → Reached cfg h → Reached cfg (stop h)

Reached-IsWithin : (cfg : Config) (h : Hub) → Reached cfg h → IsWithin cfg h
unfolding lookup
Reached-IsWithin cfg h made = record {
  distinct = tt;
  right = λ k t e. ground arith;
  registered = λ m lt o. absurd (omega arith);
}
Reached-IsWithin cfg h (registered tenant user tail_read r) =
    register-IsWithin cfg tenant user tail_read _ (Reached-IsWithin cfg _ r)
Reached-IsWithin cfg h (pushed n ev r) = push_to-IsWithin cfg n ev _ (Reached-IsWithin cfg _ r)
Reached-IsWithin cfg h (dispatched tenant e r) =
    dispatch-IsWithin cfg tenant e _ (Reached-IsWithin cfg _ r)
Reached-IsWithin cfg h (received n r) = receive-IsWithin cfg n _ (Reached-IsWithin cfg _ r)
Reached-IsWithin cfg h (left n lt r) = close-IsWithin cfg n _ lt (Reached-IsWithin cfg _ r)
Reached-IsWithin cfg h (ended r) = stop-IsWithin cfg _ (Reached-IsWithin cfg _ r)

module _ (cfg : Config) where
  push_all-Reached :
      (n : ℕ) (es : List Entry) (h : Hub) → Reached cfg h → Reached cfg (push_all n es h)
  unfolding push_all
  push_all-Reached n [] h r = r
  push_all-Reached n (e ∷ es) h r =
      either cfg (Reached cfg) (targets e.to (h.subs n).user) _ _
        (push_all-Reached n es (push_to n e.event h).1 (pushed n e.event r))
        (push_all-Reached n es h r)

  replay-Reached :
      (n : ℕ) (last_id : String) (oldest : ℤ) (entries : Option (List Entry)) (h : Hub)
      → Reached cfg h
      → Reached cfg (replay n last_id oldest entries h)
  unfolding replay
  replay-Reached n last_id oldest entries h r =
      either cfg (Reached cfg) (not (parse_id last_id).1 || ltb_ℤ (parse_id last_id).0.0 oldest) _ _
        (pushed n (reset_event "{\"reason\":\"replay_window\"}") r) (read entries)
    where
      read :
          (o : Option (List Entry))
          → Reached cfg (elim o as (λ x. Hub) [
            | none ↦ (push_to n (reset_event "{\"reason\":\"replay_unavailable\"}") h).1
            | some es ↦ push_all n es h
          ])
      read none = pushed n (reset_event "{\"reason\":\"replay_unavailable\"}") r
      read (some es) = push_all-Reached n es h r

  -- What follows the registration, where nothing comes between, is a run of these steps.
  resume-Reached :
      (n : ℕ) (last_id : String) (oldest : ℤ) (entries : Option (List Entry)) (h : Hub)
      → Reached cfg h
      → Reached cfg (resume n last_id oldest entries h)
  unfolding resume
  resume-Reached n last_id oldest entries h r =
      either cfg (Reached cfg) (last_id == "") _ _ r (replay-Reached n last_id oldest entries h r)

-- In every hub that can be reached, a tenant has at most its limit of open streams and each of its users
-- at most theirs, and the count by user is the number of the user's streams.
pub Reached-limits :
    (cfg : Config) (h : Hub) (tenant : String) (t : TenantSub) (user : String)
    → Reached cfg h
    → lookup tenant h.tenants ≡ some t
    → (length t.conns ≤ cfg.streams_per_tenant)
      × (count_user h.subs user t.conns ≤ cfg.streams_per_user)
      × (t.by_user user ≡ count_user h.subs user t.conns)
Reached-limits cfg h tenant t user r e =
    let right = (Reached-IsWithin cfg h r).right tenant t e in
    (
      right.all,
      subst (λ n. n ≤ cfg.streams_per_user) (right.counted user) (right.users user),
      right.counted user,
    )
