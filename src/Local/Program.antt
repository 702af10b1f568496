-- ===== src/Local/Program.antt =====
-- Programs that make calls to the world outside them and go on with the answers.
use blog_solutions.Prelude.{
  refl, inl, inr, [], ◌≡◌, ◌⊎◌, List, ◌∷◌, Outcome, ok, err, panic, out_of_fuel,
}

-- The calls, and what answers each of them.
pub data Program (Call : Type 0) (Answer : Call → Type 0) (E : Type 0) (A : Type 0) : Type 0 where
  done : Outcome E A → Program Call Answer E A
  call : (c : Call) → (Answer c → Program Call Answer E A) → Program Call Answer E A

-- A trace has the last call first.
abbrev pub Event : (Call : Type 0) → (Call → Type 0) → Type 0
Event Call Answer = (c : Call) × Answer c

abbrev pub Trace : (Call : Type 0) → (Call → Type 0) → Type 0
Trace Call Answer = List (Event Call Answer)

-- `InOrder`, by recursion on the trace.
abbrev Holds :
    {Call : Type 0} {Answer : Call → Type 0} → Trace Call Answer → List (Event Call Answer) → Type 0
Holds [] [] = Unit
Holds [] (e ∷ es) = ⊥
Holds (x ∷ past) [] = Unit
Holds (x ∷ past) (e ∷ []) = (e ≡ x) ⊎ Holds past (e ∷ [])
Holds (x ∷ past) (e ∷ f ∷ es) = ((e ≡ x) × Holds past (f ∷ es)) ⊎ Holds past (e ∷ f ∷ es)

-- The events are events of the trace, in this order, the last one first.
abbrev pub InOrder :
    {Call : Type 0} {Answer : Call → Type 0} → List (Event Call Answer) → Trace Call Answer → Type 0
InOrder es t = Holds t es

-- The event is one of the trace.
abbrev pub Happened :
    {Call : Type 0} {Answer : Call → Type 0} → Event Call Answer → Trace Call Answer → Type 0
Happened e t = InOrder (e ∷ []) t

module _ {Call : Type 0} {Answer : Call → Type 0} where
  pub InOrder-nil : (t : Trace Call Answer) → InOrder [] t
  InOrder-nil [] = tt
  InOrder-nil (x ∷ past) = tt

  -- The order stays in a longer trace.
  pub InOrder-cons :
      (es : List (Event Call Answer)) (x : Event Call Answer) (past : Trace Call Answer)
      → InOrder es past
      → InOrder es (x ∷ past)
  InOrder-cons [] x past h = tt
  InOrder-cons (e ∷ []) x past h = inr h
  InOrder-cons (e ∷ f ∷ es) x past h = inr h

  -- The event that has just happened is behind all that have happened before.
  pub InOrder-now :
      (es : List (Event Call Answer)) (x : Event Call Answer) (past : Trace Call Answer)
      → InOrder es past
      → InOrder (x ∷ es) (x ∷ past)
  InOrder-now [] x past h = inl refl
  InOrder-now (f ∷ es) x past h = inl (refl, h)

-- What the world answers may depend on all that has happened.
abbrev pub World : (Call : Type 0) → (Call → Type 0) → Type 0
World Call Answer = Trace Call Answer → (c : Call) → Answer c

module _ {Call : Type 0} {Answer : Call → Type 0} {E A : Type 0} where
  unfoldable pub exec :
      World Call Answer
      → Trace Call Answer
      → Program Call Answer E A
      → Trace Call Answer × Outcome E A
  exec world past (done o) = (past, o)
  exec world past (call c k) = let a = world past c in exec world ((c, a) ∷ past) (k a)

  -- Whatever the world answers, the run ends in a trace and an outcome that satisfy `Q`.
  unfoldable pub Ensures :
      (Trace Call Answer → Outcome E A → Type 0)
      → Trace Call Answer
      → Program Call Answer E A
      → Type 0
  Ensures Q past (done o) = Q past o
  Ensures Q past (call c k) = (a : Answer c) → Ensures Q ((c, a) ∷ past) (k a)

module _ {Call : Type 0} {Answer : Call → Type 0} {E A B : Type 0} where
  -- Goes on with what the program came to, whatever that is.
  unfoldable pub on_end :
      Program Call Answer E A → (Outcome E A → Program Call Answer E B) → Program Call Answer E B
  on_end (done o) f = f o
  on_end (call c k) f = call c (λ a. on_end (k a) f)

  abbrev pub next_step : (A → Program Call Answer E B) → Outcome E A → Program Call Answer E B
  next_step f (ok a) = f a
  next_step f (err e) = done (err e)
  next_step f (panic p) = done (panic p)
  next_step f out_of_fuel = done out_of_fuel

infixl 5 ◌>>=◌
abbrev pub ◌>>=◌ :
    {Call : Type 0} {Answer : Call → Type 0} {E A B : Type 0}
    → Program Call Answer E A
    → (A → Program Call Answer E B)
    → Program Call Answer E B
p >>= f = on_end p (next_step f)

module _ {Call : Type 0} {Answer : Call → Type 0} {E A : Type 0} where
  -- Go's `defer`: the deferred call runs when the function ends, by a panic too.
  abbrev pub deferring :
      Program Call Answer E A → Program Call Answer E Unit → Program Call Answer E A
  deferring p d = on_end p (λ o. on_end d (λ ended. done o))

module _ {Call : Type 0} {Answer : Call → Type 0} {E A : Type 0} where
  pub exec-Ensures :
      (world : World Call Answer) (Q : Trace Call Answer → Outcome E A → Type 0)
      (past : Trace Call Answer) (p : Program Call Answer E A)
      → Ensures Q past p
      → Q (exec world past p).0 (exec world past p).1
  unfolding exec Ensures
  exec-Ensures world Q past (done o) h = h
  exec-Ensures world Q past (call c k) h =
      let a = world past c in exec-Ensures world Q ((c, a) ∷ past) (k a) (h a)

module _ {Call : Type 0} {Answer : Call → Type 0} {E A B : Type 0} where
  -- What the first part ensures is what the second starts from.
  pub Ensures-on_end :
      (R : Trace Call Answer → Outcome E A → Type 0) (Q : Trace Call Answer → Outcome E B → Type 0)
      (past : Trace Call Answer) (p : Program Call Answer E A)
      (f : Outcome E A → Program Call Answer E B)
      → Ensures R past p
      → ((t : Trace Call Answer) (o : Outcome E A) → R t o → Ensures Q t (f o))
      → Ensures Q past (on_end p f)
  unfolding Ensures on_end
  Ensures-on_end R Q past (done o) f h g = g past o h
  Ensures-on_end R Q past (call c k) f h g = λ a. Ensures-on_end R Q ((c, a) ∷ past) (k a) f (h a) g
