-- ===== src/Local/Rules.antt =====
-- How a program ensures what it does, by its parts.
use blog_solutions.Prelude.{
  ◌≡◌, refl, ◌∷◌, Bool, true, false, Option, none, some, Outcome, ok, err, panic, out_of_fuel,
}
use blog_solutions.Local.Program.{
  Program, done, call, Trace, Ensures, on_end, next_step, ◌>>=◌, deferring, Ensures-on_end,
}
use blog_solutions.Local.Calls.{
  CallError, Reply, answer, failure, Failure, checked, require, unless_ended, call_failed,
  NodeProgram, NodeCall, NodeAnswer, Call, CallAnswer, node, connected,
}

module _ {C : Type 0} {Answer : C → Type 0} {A B : Type 0}
    (Q : Trace C Answer → Outcome Failure B → Type 0) (past : Trace C Answer) where
  pub Ensures-checked :
      (wrap : CallError → Failure) (r : Reply A) (f : A → Program C Answer Failure B)
      → ((e : CallError) → r ≡ failure e → Q past (err (wrap e)))
      → ((a : A) → r ≡ answer a → Ensures Q past (f a))
      → Ensures Q past (checked wrap r >>= f)
  unfolding Ensures on_end
  Ensures-checked wrap (answer a) f h g = g a refl
  Ensures-checked wrap (failure e) f h g = h e refl

module _ {C : Type 0} {Answer : C → Type 0} {B : Type 0}
    (Q : Trace C Answer → Outcome Failure B → Type 0) (past : Trace C Answer) where
  pub Ensures-require :
      (test : Bool) (e : Failure) (f : Unit → Program C Answer Failure B)
      → (test ≡ false → Q past (err e))
      → (test ≡ true → Ensures Q past (f tt))
      → Ensures Q past (require test e >>= f)
  unfolding Ensures on_end
  Ensures-require true e f h g = g refl
  Ensures-require false e f h g = h refl

  pub Ensures-unless_ended :
      (ended : Option CallError) (f : Unit → Program C Answer Failure B)
      → ((e : CallError) → Q past (err (call_failed e)))
      → Ensures Q past (f tt)
      → Ensures Q past (unless_ended ended >>= f)
  unfolding Ensures on_end
  Ensures-unless_ended none f h g = g
  Ensures-unless_ended (some e) f h g = h e

-- A predicate on traces alone.
abbrev pub Ends :
    {C : Type 0} {Answer : C → Type 0} {A : Type 0}
    → (Trace C Answer → Type 0)
    → Trace C Answer
    → Outcome Failure A
    → Type 0
Ends R t o = R t

module _ {C : Type 0} {Answer : C → Type 0} {A : Type 0} (R S : Trace C Answer → Type 0) where
  pub Ensures-deferring :
      (past : Trace C Answer) (p : Program C Answer Failure A) (d : Program C Answer Failure Unit)
      → Ensures (Ends R) past p
      → ((t : Trace C Answer) → R t → Ensures (Ends S) t d)
      → Ensures (Ends S) past (deferring p d)
  Ensures-deferring past p d h g =
      Ensures-on_end (Ends R) (Ends S) past p (λ o. on_end d (λ ended. done o)) h
        λ t o r.
          Ensures-on_end (Ends S) (Ends S) t d (λ ended. done o) (g t r)
            (λ t' o' s. unfold Ensures in s)

module _ {C : Type 0} {Answer : C → Type 0} {A B : Type 0} (R S : Trace C Answer → Type 0) where
  Ensures-next_step :
      (f : A → Program C Answer Failure B) (t : Trace C Answer) (o : Outcome Failure A)
      → R t
      → (R t → S t)
      → ((a : A) → R t → Ensures (Ends S) t (f a))
      → Ensures (Ends S) t (next_step f o)
  unfolding Ensures
  Ensures-next_step f t (ok a) r w g = g a r
  Ensures-next_step f t (err e) r w g = w r
  Ensures-next_step f t (panic q) r w g = w r
  Ensures-next_step f t out_of_fuel r w g = w r

  -- A second part that goes on from what the first ends with, where there is a second part.
  pub Ensures-bind :
      (past : Trace C Answer) (p : Program C Answer Failure A) (f : A → Program C Answer Failure B)
      → Ensures (Ends R) past p
      → ((t : Trace C Answer) → R t → S t)
      → ((t : Trace C Answer) (a : A) → R t → Ensures (Ends S) t (f a))
      → Ensures (Ends S) past (p >>= f)
  Ensures-bind past p f h w g =
      Ensures-on_end (Ends R) (Ends S) past p (next_step f) h
        (λ t o r. Ensures-next_step f t o r (w t) (g t))

-- What ends in one way ends in a weaker one.
pub Ensures-weaken :
    {C : Type 0} {Answer : C → Type 0} {A : Type 0} (R S : Trace C Answer → Type 0)
    (past : Trace C Answer) (p : Program C Answer Failure A)
    → ((t : Trace C Answer) → R t → S t)
    → Ensures (Ends R) past p
    → Ensures (Ends S) past p
unfolding Ensures
Ensures-weaken R S past (done o) w h = w past h
Ensures-weaken R S past (call c k) w h = λ a. Ensures-weaken R S ((c, a) ∷ past) (k a) w (h a)

-- Calls of the client that keep a predicate, whatever the program is.
pub Ensures-connected :
    {Tx A : Type 0} (R : Trace (Call Tx) CallAnswer → Type 0)
    → ((t : Trace (Call Tx) CallAnswer) (c : NodeCall Tx) (a : NodeAnswer c)
        → R t
        → R ((node c, a) ∷ t))
    → (past : Trace (Call Tx) CallAnswer) (p : NodeProgram Tx A) → R past
    → Ensures (Ends R) past (connected p)
unfolding Ensures connected
Ensures-connected R keep past (done o) h = h
Ensures-connected R keep past (call c k) h =
    λ a. Ensures-connected R keep ((node c, a) ∷ past) (k a) (keep past c a h)
