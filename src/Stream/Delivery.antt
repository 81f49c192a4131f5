-- ===== src/Stream/Delivery.antt =====
-- internal/stream/hub.go: what a reader gets rises in its ids, so nothing is delivered twice.
use go_tangra_asset.Common.{
  String, ◌≡◌, ◌≢◌, ◌⊎◌, inl, inr, refl, sym, ◌∙◌, true, List, [], ◌∷◌, ◌++◌, arith,
}
use mathlib.Core.List.{append_assoc, append-nil}
use go_tangra_asset.Stream.{less}
use go_tangra_asset.Stream.Order.{less_trans}
use go_tangra_asset.Stream.Queue.{
  Event, Subscription, Happening, comes, taken, closes, push, taken_from, happen, happen_all,
  IsRising, opened,
}

-- An id comes after another, or there was none.
abbrev Follows : String → String → Type 0
Follows lo x = (lo ≡ "") ⊎ (less lo x ≡ true)

Follows-trans : (lo hi x : String) → IsRising lo [] hi → Follows hi x → Follows lo x
Follows-trans lo hi x (inl e) (inl q) = inl (e ∙ q)
Follows-trans lo hi x (inl e) (inr q) = inr (rw e q)
Follows-trans lo hi x (inr (m, r)) (inl q) = absurd (m q)
Follows-trans lo hi x (inr (m, inl r)) (inr q) = inl r
Follows-trans lo hi x (inr (m, inr r)) (inr q) = inr (less_trans lo hi x r q)

IsRising-up :
    (lo hi x : String) (es : List Event)
    → IsRising lo es hi
    → x ≢ ""
    → Follows hi x
    → IsRising lo es x
IsRising-up lo hi x [] r n up = inr (n, Follows-trans lo hi x r up)
IsRising-up lo hi x (e ∷ es) (inl (p, r)) n up = inl (p, IsRising-up lo hi x es r n up)
IsRising-up lo hi x (e ∷ es) (inr (p, q, r)) n up = inr (p, q, IsRising-up e.id hi x es r n up)

IsRising-blank :
    (lo hi : String) (es : List Event) (ev : Event)
    → IsRising lo es hi
    → ev.id ≡ ""
    → IsRising lo (es ++ (ev ∷ [])) hi
IsRising-blank lo hi [] ev r e = inl (e, r)
IsRising-blank lo hi (x ∷ es) ev (inl (p, r)) e = inl (p, IsRising-blank lo hi es ev r e)
IsRising-blank lo hi (x ∷ es) ev (inr (p, q, r)) e = inr (p, q, IsRising-blank x.id hi es ev r e)

IsRising-end :
    (lo hi : String) (es : List Event) (ev : Event)
    → IsRising lo es hi
    → ev.id ≢ ""
    → Follows hi ev.id
    → IsRising lo (es ++ (ev ∷ [])) ev.id
IsRising-end lo hi [] ev r n up = inr (n, Follows-trans lo hi ev.id r up, inl refl)
IsRising-end lo hi (x ∷ es) ev (inl (p, r)) n up = inl (p, IsRising-end lo hi es ev r n up)
IsRising-end lo hi (x ∷ es) ev (inr (p, q, r)) n up = inr (p, q, IsRising-end x.id hi es ev r n up)

-- The four things that a push does to the queue and to the last id.
push-cases :
    (ev : Event) (s : Subscription)
    → (((push ev s).1.ch ≡ s.ch) × ((push ev s).1.last ≡ s.last))
      ⊎ ((ev.id ≡ "") × ((push ev s).1.ch ≡ s.ch ++ (ev ∷ [])) × ((push ev s).1.last ≡ s.last))
      ⊎ ((ev.id ≢ "")
          × Follows s.last ev.id
          × ((push ev s).1.last ≡ ev.id)
          × (((push ev s).1.ch ≡ s.ch) ⊎ ((push ev s).1.ch ≡ s.ch ++ (ev ∷ []))))
unfolding push
push-cases ev s = ground arith

-- What a push keeps, after the events `got` that the reader has.
push-IsRising :
    (got : List Event) (ev : Event) (s : Subscription)
    → IsRising "" (got ++ s.ch) s.last
    → IsRising "" (got ++ (push ev s).1.ch) (push ev s).1.last
push-IsRising got ev s r = elim (push-cases ev s) [
  | inl (c, l) ↦ rw (c, l) r
  | inr (inl (e, c, l)) ↦
      rw (c, l, sym (append_assoc got s.ch (ev ∷ [])))
        (IsRising-blank "" s.last (got ++ s.ch) ev r e)
  | inr (inr (n, up, l, inl c)) ↦ rw (c, l) (IsRising-up "" s.last ev.id (got ++ s.ch) r n up)
  | inr (inr (n, up, l, inr c)) ↦
      rw (c, l, sym (append_assoc got s.ch (ev ∷ [])))
        (IsRising-end "" s.last (got ++ s.ch) ev r n up)
]

taken-IsRising :
    (got : List Event) (s : Subscription) (es : List Event)
    → s.ch ≡ es
    → IsRising "" (got ++ es) s.last
    → IsRising "" ((got ++ (taken_from s es).0) ++ (taken_from s es).1.ch) (taken_from s es).1.last
taken-IsRising got s [] e r = rw (append-nil got, e) r
taken-IsRising got s (x ∷ es) e r = rw (append_assoc got (x ∷ []) es) r

happen-IsRising :
    (got : List Event) (h : Happening) (s : Subscription)
    → IsRising "" (got ++ s.ch) s.last
    → IsRising "" ((got ++ (happen h s).0) ++ (happen h s).1.ch) (happen h s).1.last
unfolding happen
happen-IsRising got (comes ev) s r = rw (append-nil got) (push-IsRising got ev s r)
happen-IsRising got taken s r = taken-IsRising got s s.ch refl r
happen-IsRising got closes s r = rw (append-nil got) r

run-IsRising :
    (got : List Event) (hs : List Happening) (s : Subscription)
    → IsRising "" (got ++ s.ch) s.last
    → IsRising "" (got ++ ((happen_all hs s).0 ++ (happen_all hs s).1.ch)) (happen_all hs s).1.last
unfolding happen_all
run-IsRising got [] s r = r
run-IsRising got (h ∷ hs) s r =
    rw
      (
        append_assoc (happen h s).0 (happen_all hs (happen h s).1).0
            (happen_all hs (happen h s).1).1.ch,
        sym (
            append_assoc got (happen h s).0
              ((happen_all hs (happen h s).1).0 ++ (happen_all hs (happen h s).1).1.ch)),
      )
      (run-IsRising (got ++ (happen h s).0) hs (happen h s).1 (happen-IsRising got h s r))

-- Whatever comes to a new subscription, in whatever order with what its reader takes: the ids of the
-- events that the reader has got and will get rise strictly, so that none is delivered twice.
pub happen_all-IsRising :
    (tenant user : String) (hs : List Happening)
    → IsRising ""
        ((happen_all hs (opened tenant user)).0 ++ (happen_all hs (opened tenant user)).1.ch)
        (happen_all hs (opened tenant user)).1.last
happen_all-IsRising tenant user hs = run-IsRising [] hs (opened tenant user) (inl refl)
