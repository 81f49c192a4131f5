-- ===== src/Service/Rules.antt =====
-- Rules to follow an operation step by step: what holds after it, of the result and the world if it
-- is done, and of the world if it fails.
use go_tangra_asset.Common.{⊤, ◌≡◌, refl, subst, Bool, true, false, Option, none, some, ◌∷◌}
use go_tangra_asset.Memstore.State.{Mem, Op, Result, Err}
use go_tangra_asset.Service.{
  World, gate, go_on, from_store, Outcome, done, failed, Action, Effect, Fault, ◌>>=◌, ◌>>◌, pure,
  fault, fault_if, emit, on_store, attempt,
}

unfoldable pub After :
    {B : Type 0} → (B → World → Type 0) → (World → Type 0) → Outcome B × World → Type 0
After Q E (done b, w) = Q b w
After Q E (failed e, w) = E w

chained :
    {A B : Type 0} (Q : B → World → Type 0) (E : World → Type 0) (P : A → World → Type 0)
    (r : Outcome A × World) (f : A → Action B)
    → After P E r
    → ((a : A) (w' : World) → P a w' → After Q E (f a w'))
    → After Q E (go_on r f)
unfolding After ◌>>=◌ gate fault_if on_store attempt
chained Q E P (done a, w') f h k = k a w' h
chained Q E P (failed e, w') f h k = h

module _ {B : Type 0} (Q : B → World → Type 0) (E : World → Type 0) where
  -- A check changes nothing; past it, there was no error.
  pub After-gate :
      (o : Option Fault) (k : Action B) (w : World)
      → E w
      → (o ≡ none → After Q E (k w))
      → After Q E ((gate o >> k) w)
  unfolding After ◌>>=◌ gate fault_if on_store attempt
  After-gate none k w e h = h refl
  After-gate (some f) k w e h = e

  pub After-fault_if :
      (c : Bool) (f : Fault) (k : Action B) (w : World)
      → E w
      → (c ≡ false → After Q E (k w))
      → After Q E ((fault_if c f >> k) w)
  unfolding After ◌>>=◌ gate fault_if on_store attempt
  After-fault_if true f k w e h = e
  After-fault_if false f k w e h = h refl

  came_back :
      {A : Type 0} (map_err : Err → Fault) (r : Result A × Mem) (f : A → Action B) (w : World)
      → ((x : Err) → r.0 ≡ Result.err x → E (record w { mem = r.1 }))
      → ((a : A) → r.0 ≡ Result.ok a → After Q E (f a (record w { mem = r.1 })))
      → After Q E (go_on (from_store map_err r w) f)
  unfolding After ◌>>=◌ gate fault_if on_store attempt
  came_back map_err (Result.ok a, m) f w bad good = good a refl
  came_back map_err (Result.err x, m) f w bad good = bad x refl

  -- A store call stops the operation on its error, and hands its result on.
  pub After-store :
      {A : Type 0} (map_err : Err → Fault) (op : Op A) (f : A → Action B) (w : World)
      → ((x : Err) → (op w.mem).0 ≡ Result.err x → E (record w { mem = (op w.mem).1 }))
      → ((a : A) → (op w.mem).0 ≡ Result.ok a → After Q E (f a (record w { mem = (op w.mem).1 })))
      → After Q E ((on_store map_err op >>= f) w)
  unfolding After ◌>>=◌ gate fault_if on_store attempt
  After-store map_err op f w = came_back map_err (op w.mem) f w

  pub After-attempt :
      {A : Type 0} (op : Op A) (f : Result A → Action B) (w : World)
      → After Q E (f (op w.mem).0 (record w { mem = (op w.mem).1 }))
      → After Q E ((attempt op >>= f) w)
  unfolding After ◌>>=◌ gate fault_if on_store attempt
  After-attempt op f w h = h

  -- Two steps, by what the first leaves.
  pub After-bind :
      {A : Type 0} (P : A → World → Type 0) (o : Action A) (f : A → Action B) (w : World)
      → After P E (o w)
      → ((a : A) (w' : World) → P a w' → After Q E (f a w'))
      → After Q E ((o >>= f) w)
  unfolding After ◌>>=◌ gate fault_if on_store attempt
  After-bind P o f w h k = chained Q E P (o w) f h k

  pub After-emit :
      (x : Effect) (k : Action B) (w : World)
      → After Q E (k (record w { effects = x ∷ w.effects }))
      → After Q E ((emit x >> k) w)
  unfolding After ◌>>=◌ emit
  After-emit x k w h = h

  pub After-pure : (b : B) (w : World) → Q b w → After Q E (pure b w)
  unfolding After
  After-pure b w h = h

  pub After-fault : (e : Fault) (w : World) → E w → After Q E (fault e w)
  unfolding After
  After-fault e w h = h

-- What is known of an operation that is done.
pub After-done :
    {B : Type 0} (Q : B → World → Type 0) (E : World → Type 0) (r : Outcome B × World) (b : B)
    (w' : World)
    → r ≡ (done b, w')
    → After Q E r
    → Q b w'
unfolding After
After-done Q E r b w' e h = subst (λ x. After Q E x) e h

abbrev pub Any : World → Type 0
Any w = ⊤

-- A check that ends an operation.
pub fault_if-After :
    (Q : ⊤ → World → Type 0) (c : Bool) (f : Fault) (w : World)
    → (c ≡ false → Q tt w)
    → After Q Any (fault_if c f w)
unfolding After fault_if
fault_if-After Q true f w h = tt
fault_if-After Q false f w h = h refl

-- A store call that ends an operation.
pub on_store-After :
    {B : Type 0} (Q : B → World → Type 0) (map_err : Err → Fault) (op : Op B) (w : World)
    → ((b : B) → (op w.mem).0 ≡ Result.ok b → Q b (record w { mem = (op w.mem).1 }))
    → After Q Any (on_store map_err op w)
unfolding After on_store
on_store-After {B = B} Q map_err op w good = go (op w.mem) good
  where
    go :
        (r : Result B × Mem)
        → ((b : B) → r.0 ≡ Result.ok b → Q b (record w { mem = r.1 }))
        → After Q Any (from_store map_err r w)
    go (Result.ok b, m) h = h b refl
    go (Result.err x, m) h = tt

-- An effect leaves the store as it is.
pub emit-After :
    (P : Mem → Type 0) (x : Effect) (w : World)
    → P w.mem
    → After (λ (b : ⊤) w'. P w'.mem) Any (emit x w)
unfolding After emit
emit-After P x w h = h

-- What holds anyway holds after an operation.
pub After-const : {B : Type 0} (G : Type 0) (r : Outcome B × World) → G → After (λ b w. G) Any r
unfolding After
After-const G (done b, w) g = g
After-const G (failed e, w) g = tt
