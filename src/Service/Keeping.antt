-- ===== src/Service/Keeping.antt =====
-- Rules for what every step of an operation keeps of the store, whether the step is done or fails.
use go_tangra_asset.Common.{
  ◌≡◌, refl, subst, Bool, true, false, Option, none, some, ⊤, if◌then◌else◌,
}
use go_tangra_asset.Memstore.State.{Mem, Op, Result, Err}
use go_tangra_asset.Service.{
  World, Outcome, done, failed, Action, Effect, Fault, gate, go_on, from_store, ◌>>=◌, pure, fault,
  fault_if, emit, on_store, attempt,
}

-- The store's condition `P` holds after the operation if it held before.
unfoldable pub Keeps : (Mem → Type 0) → {A : Type 0} → Action A → Type 0
Keeps P act = (w : World) → P w.mem → P (act w).1.mem

-- The same of a store call.
unfoldable pub KeepsCall : (Mem → Type 0) → {A : Type 0} → Op A → Type 0
KeepsCall P op = (m : Mem) → P m → P (op m).1

-- What an operation gives, if it is done.
abbrev pub GivenBy : {A : Type 0} → (A → Type 0) → Outcome A × World → Type 0
GivenBy R (done a, w) = R a
GivenBy R (failed e, w) = ⊤

unfoldable pub Gives : {A : Type 0} → (A → Type 0) → Action A → Type 0
Gives R act = (w : World) → GivenBy R (act w)

module _ (P : Mem → Type 0) {A B : Type 0} where
  kept_on :
      (R : A → Type 0) (f : A → Action B) (r : Outcome A × World)
      → GivenBy R r
      → ((a : A) → R a → Keeps P (f a))
      → P r.1.mem
      → P (go_on r f).1.mem
  unfolding Keeps
  kept_on R f (done a, w) g k q = k a g w q
  kept_on R f (failed e, w) g k q = q

  -- Two steps, where the second may use what the first gives.
  pub Keeps-bind_given :
      (R : A → Type 0) (o : Action A) (f : A → Action B)
      → Gives R o
      → Keeps P o
      → ((a : A) → R a → Keeps P (f a))
      → Keeps P (o >>= f)
  unfolding Keeps Gives ◌>>=◌
  Keeps-bind_given R o f g h k w p = kept_on R f (o w) (g w) k (h w p)

  pub Keeps-bind :
      (o : Action A) (f : A → Action B) → Keeps P o → ((a : A) → Keeps P (f a)) → Keeps P (o >>= f)
  unfolding Keeps ◌>>=◌
  Keeps-bind o f h k w p = kept_on (λ a. ⊤) f (o w) (given (o w)) (λ a g. k a) (h w p)
    where
      given : (r : Outcome A × World) → GivenBy (λ a. ⊤) r
      given (done a, w) = tt
      given (failed e, w) = tt

module _ (P : Mem → Type 0) where
  pub Keeps-gate : (o : Option Fault) → Keeps P (gate o)
  unfolding Keeps gate
  Keeps-gate none w p = p
  Keeps-gate (some f) w p = p

  pub Keeps-fault_if : (c : Bool) (f : Fault) → Keeps P (fault_if c f)
  unfolding Keeps fault_if
  Keeps-fault_if true f w p = p
  Keeps-fault_if false f w p = p

  pub Keeps-emit : (x : Effect) → Keeps P (emit x)
  unfolding Keeps emit
  Keeps-emit x w p = p

  pub Keeps-pure : {A : Type 0} (a : A) → Keeps P (pure a)
  unfolding Keeps
  Keeps-pure a w p = p

  pub Keeps-fault : (A : Type 0) (e : Fault) → Keeps P (fault {A = A} e)
  unfolding Keeps
  Keeps-fault A e w p = p

  pub Keeps-if :
      {A : Type 0} (c : Bool) (x y : Action A)
      → Keeps P x
      → Keeps P y
      → Keeps P (if c then x else y)
  Keeps-if true x y h k = h
  Keeps-if false x y h k = k

  stored_on :
      {A : Type 0} (map_err : Err → Fault) (r : Result A × Mem) (w : World)
      → P r.1
      → P (from_store map_err r w).1.mem
  stored_on map_err (Result.ok a, m) w p = p
  stored_on map_err (Result.err e, m) w p = p

  pub Keeps-on_store :
      {A : Type 0} (map_err : Err → Fault) (op : Op A)
      → KeepsCall P op
      → Keeps P (on_store map_err op)
  unfolding Keeps KeepsCall on_store
  Keeps-on_store map_err op h w p = stored_on map_err (op w.mem) w (h w.mem p)

  pub Keeps-attempt : {A : Type 0} (op : Op A) → KeepsCall P op → Keeps P (attempt op)
  unfolding Keeps KeepsCall attempt
  Keeps-attempt op h w p = h w.mem p

-- What a store call gives is what the operation on it gives.
given_on :
    {A : Type 0} (R : A → Type 0) (map_err : Err → Fault) (r : Result A × Mem) (w : World)
    → ((a : A) → r.0 ≡ Result.ok a → R a)
    → GivenBy R (from_store map_err r w)
given_on R map_err (Result.ok a, m) w h = h a refl
given_on R map_err (Result.err e, m) w h = tt

pub Gives-on_store :
    {A : Type 0} (R : A → Type 0) (map_err : Err → Fault) (op : Op A)
    → ((m : Mem) (a : A) → (op m).0 ≡ Result.ok a → R a)
    → Gives R (on_store map_err op)
unfolding Gives on_store
Gives-on_store R map_err op h w = given_on R map_err (op w.mem) w (h w.mem)

module _ {A B : Type 0} (R : B → Type 0) where
  given_after :
      (f : A → Action B) (r : Outcome A × World) → ((a : A) → Gives R (f a)) → GivenBy R (go_on r f)
  unfolding Gives
  given_after f (done a, w) h = h a w
  given_after f (failed e, w) h = tt

  -- What the rest gives is what both give.
  pub Gives-bind : (o : Action A) (f : A → Action B) → ((a : A) → Gives R (f a)) → Gives R (o >>= f)
  unfolding Gives ◌>>=◌
  Gives-bind o f h w = given_after f (o w) h

module _ {A B : Type 0} (S : A → Type 0) (R : B → Type 0) where
  given_from :
      (f : A → Action B) (r : Outcome A × World)
      → GivenBy S r
      → ((a : A) → S a → Gives R (f a))
      → GivenBy R (go_on r f)
  unfolding Gives
  given_from f (done a, w) g h = h a g w
  given_from f (failed e, w) g h = tt

  -- The rest may use what the first step gives.
  pub Gives-bind_given :
      (o : Action A) (f : A → Action B)
      → Gives S o
      → ((a : A) → S a → Gives R (f a))
      → Gives R (o >>= f)
  unfolding Gives ◌>>=◌
  Gives-bind_given o f g h w = given_from f (o w) (g w) h

pub Gives-done :
    {A : Type 0} (R : A → Type 0) (act : Action A) (a : A) (w w' : World)
    → Gives R act
    → act w ≡ (done a, w')
    → R a
unfolding Gives
Gives-done R act a w w' g e = subst (GivenBy R) e (g w)

pub Gives-pure : {A : Type 0} (R : A → Type 0) (a : A) → R a → Gives R (pure a)
unfolding Gives
Gives-pure R a h w = h

pub ruleset keeping =
    (Keeps-bind, Keeps-gate, Keeps-fault_if, Keeps-emit, Keeps-pure, Keeps-if, Keeps-on_store)
