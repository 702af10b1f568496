-- ===== src/Local/Signals/Order.antt =====
-- The invariant of `executeWithSignals`.
use blog_solutions.Prelude.{ℕ, ◌+◌, ◌≡◌, ◌⊎◌, Bool, true, false, List, [], ◌∷◌, Option, none, some}
use blog_solutions.Local.Signals.{
  Signal, number, Watcher, waiting, cancelling, gone, Main, running, returned, exited, Process,
}

-- A signal among those delivered.
abbrev pub Among : Signal → List Signal → Type 0
Among s [] = ⊥
Among s (t ∷ signals) = (s ≡ t) ⊎ Among s signals

-- The code of a signal that the process has got.
abbrev pub IsSignalCode : List Signal → ℕ → Type 0
IsSignalCode delivered code = (s : Signal) × Among s delivered × (code ≡ 128 + number s)

abbrev pub Holds : List Signal → Option ℕ → Type 0
Holds delivered none = ⊥
Holds delivered (some code) = IsSignalCode delivered code

abbrev pub IsQueued : List Signal → Option Signal → Type 0
IsQueued delivered none = Unit
IsQueued delivered (some s) = Among s delivered

-- The goroutine's part of the invariant, before the function returns: the code is in its channel
-- before the context is done.
abbrev pub IsWatched : List Signal → Watcher → Option ℕ → Bool → Type 0
IsWatched delivered waiting interrupted cancelled = (interrupted ≡ none) × (cancelled ≡ false)
IsWatched delivered cancelling interrupted cancelled =
    Holds delivered interrupted × (cancelled ≡ false)
IsWatched delivered gone interrupted cancelled = Holds delivered interrupted

abbrev pub IsPlainCode : Bool → ℕ → Type 0
IsPlainCode true code = code ≡ 1
IsPlainCode false code = code ≡ 0

-- What an exit code means.
abbrev pub IsExplained : List Signal → ℕ → Bool → Bool → Type 0
IsExplained delivered code failed cut =
    IsSignalCode delivered code ⊎ ((cut ≡ false) × IsPlainCode failed code)

abbrev pub IsOrdered : List Signal → Watcher → Option ℕ → Bool → Main → Type 0
IsOrdered delivered watcher interrupted cancelled running =
    IsWatched delivered watcher interrupted cancelled
IsOrdered delivered watcher interrupted cancelled (returned failed cut) =
    IsWatched delivered watcher interrupted cancelled × (cut ≡ true → Holds delivered interrupted)
IsOrdered delivered watcher interrupted cancelled (exited code failed cut) =
    IsExplained delivered code failed cut

-- The invariant.
pub record IsSound (p : Process) : Type 0 where
  pub queued : IsQueued p.delivered p.signals
  pub ordered : IsOrdered p.delivered p.watcher p.interrupted p.cancelled p.main

abbrev pub AreSound : Option Process → Type 0
AreSound none = Unit
AreSound (some p) = IsSound p

-- A step of the goroutine that keeps its part keeps the whole.
pub IsOrdered-IsWatched :
    (d : List Signal) (w v : Watcher) (i j : Option ℕ) (c b : Bool) (m : Main)
    → (IsWatched d w i c → IsWatched d v j b)
    → (Holds d i → Holds d j)
    → IsOrdered d w i c m
    → IsOrdered d v j b m
IsOrdered-IsWatched d w v i j c b running f g o = f o
IsOrdered-IsWatched d w v i j c b (returned failed cut) f g o = (f o.0, λ e. g (o.1 e))
IsOrdered-IsWatched d w v i j c b (exited code failed cut) f g o = o
