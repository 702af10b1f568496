-- ===== src/Local/Success.antt =====
-- What holds of the programs that end in success, by their parts.
use blog_solutions.Prelude.{
  List, ◌≡◌, refl, ◌∷◌, Bool, true, false, Outcome, ok, err, panic, out_of_fuel,
}
use blog_solutions.Local.Program.{
  Event, InOrder, InOrder-cons, Program, done, call, Trace, World, exec, Ensures, on_end, next_step,
  ◌>>=◌, exec-Ensures,
}
use blog_solutions.Local.Calls.{CallError, Reply, answer, failure, Failure, checked, require}

-- Of a success `R` holds.
abbrev pub OnSuccess :
    {C : Type 0} {Answer : C → Type 0} {A : Type 0}
    → (Trace C Answer → A → Type 0)
    → Trace C Answer
    → Outcome Failure A
    → Type 0
OnSuccess R t (ok a) = R t a
OnSuccess R t (err e) = Unit
OnSuccess R t (panic p) = Unit
OnSuccess R t out_of_fuel = Unit

-- All that has happened in the first trace has happened in the second, in the same order.
abbrev pub Extends : {C : Type 0} {Answer : C → Type 0} → Trace C Answer → Trace C Answer → Type 0
Extends {C} {Answer} past t = (es : List (Event C Answer)) → InOrder es past → InOrder es t

module _ {C : Type 0} {Answer : C → Type 0} {A B : Type 0} where
  next_step-OnSuccess :
      (R : Trace C Answer → A → Type 0) (S : Trace C Answer → B → Type 0)
      (f : A → Program C Answer Failure B) (t : Trace C Answer) (o : Outcome Failure A)
      → OnSuccess R t o
      → ((a : A) → R t a → Ensures (OnSuccess S) t (f a))
      → Ensures (OnSuccess S) t (next_step f o)
  unfolding Ensures
  next_step-OnSuccess R S f t (ok a) r g = g a r
  next_step-OnSuccess R S f t (err e) r g = tt
  next_step-OnSuccess R S f t (panic p) r g = tt
  next_step-OnSuccess R S f t out_of_fuel r g = tt

  -- The second part starts from what the first has established, in a longer trace.
  pub OnSuccess-bind :
      (R : Trace C Answer → A → Type 0) (S : Trace C Answer → B → Type 0) (past : Trace C Answer)
      (p : Program C Answer Failure A) (f : A → Program C Answer Failure B)
      → Ensures (OnSuccess R) past p
      → ((t : Trace C Answer) (a : A) → Extends past t → R t a → Ensures (OnSuccess S) t (f a))
      → Ensures (OnSuccess S) past (p >>= f)
  unfolding Ensures on_end
  OnSuccess-bind R S past (done o) f h g =
      next_step-OnSuccess R S f past o h (λ a r. g past a (λ e x. x) r)
  OnSuccess-bind R S past (call c k) f h g = λ x.
      OnSuccess-bind R S ((c, x) ∷ past) (k x) f (h x)
        (λ t a w r. g t a (λ es y. w es (InOrder-cons es (c, x) _ y)) r)

module _ {C : Type 0} {Answer : C → Type 0} {A B : Type 0} (S : Trace C Answer → B → Type 0)
    (past : Trace C Answer) where
  pub OnSuccess-checked :
      (wrap : CallError → Failure) (r : Reply A) (f : A → Program C Answer Failure B)
      → ((a : A) → r ≡ answer a → Ensures (OnSuccess S) past (f a))
      → Ensures (OnSuccess S) past (checked wrap r >>= f)
  unfolding Ensures on_end
  OnSuccess-checked wrap (answer a) f g = g a refl
  OnSuccess-checked wrap (failure e) f g = tt

module _ {C : Type 0} {Answer : C → Type 0} {B : Type 0} (S : Trace C Answer → B → Type 0)
    (past : Trace C Answer) where
  pub OnSuccess-require :
      (test : Bool) (e : Failure) (f : Unit → Program C Answer Failure B)
      → (test ≡ true → Ensures (OnSuccess S) past (f tt))
      → Ensures (OnSuccess S) past (require test e >>= f)
  unfolding Ensures on_end
  OnSuccess-require true e f g = g refl
  OnSuccess-require false e f g = tt

module _ {C : Type 0} {Answer : C → Type 0} (past : Trace C Answer) where
  -- A test at the end.
  pub require-OnSuccess :
      (S : Trace C Answer → Unit → Type 0) (test : Bool) (e : Failure)
      → (test ≡ true → S past tt)
      → Ensures (OnSuccess S) past (require test e)
  unfolding Ensures
  require-OnSuccess S true e g = g refl
  require-OnSuccess S false e g = tt

module _ {C : Type 0} {Answer : C → Type 0} {A : Type 0} (R S : Trace C Answer → A → Type 0) where
  pub OnSuccess-weaken :
      (past : Trace C Answer) (p : Program C Answer Failure A)
      → Ensures (OnSuccess R) past p
      → ((t : Trace C Answer) (a : A) → Extends past t → R t a → S t a)
      → Ensures (OnSuccess S) past p
  unfolding Ensures
  OnSuccess-weaken past (done (ok a)) h w = w past a (λ e x. x) h
  OnSuccess-weaken past (done (err e)) h w = tt
  OnSuccess-weaken past (done (panic p)) h w = tt
  OnSuccess-weaken past (done out_of_fuel) h w = tt
  OnSuccess-weaken past (call c k) h w = λ x.
      OnSuccess-weaken ((c, x) ∷ past) (k x) (h x)
        (λ t a g r. w t a (λ es y. g es (InOrder-cons es (c, x) _ y)) r)

module _ {C : Type 0} {Answer : C → Type 0} {A : Type 0} where
  pub OnSuccess-always :
      (past : Trace C Answer) (p : Program C Answer Failure A)
      → Ensures (OnSuccess (λ t a. Unit)) past p
  unfolding Ensures
  OnSuccess-always past (done (ok a)) = tt
  OnSuccess-always past (done (err e)) = tt
  OnSuccess-always past (done (panic q)) = tt
  OnSuccess-always past (done out_of_fuel) = tt
  OnSuccess-always past (call c k) = λ x. OnSuccess-always ((c, x) ∷ past) (k x)

-- A run that ends in success.
pub OnSuccess-exec :
    {C : Type 0} {Answer : C → Type 0} {A : Type 0} (R : Trace C Answer → A → Type 0)
    (world : World C Answer) (past : Trace C Answer) (p : Program C Answer Failure A) (a : A)
    → Ensures (OnSuccess R) past p
    → (exec world past p).1 ≡ ok a
    → R (exec world past p).0 a
OnSuccess-exec R world past p a h e = rw e at (exec-Ensures world (OnSuccess R) past p h)
