-- ===== src/Local/Signals/Exits.antt =====
-- The exit codes of `executeWithSignals`.
use blog_solutions.Prelude.{
  ℕ, ◌+◌, ◌≡◌, refl, inl, inr, Bool, true, false, List, ◌∷◌, Option, none, some,
}
use blog_solutions.Local.Signals.{
  Signal, number, Watcher, waiting, cancelling, gone, Main, running, returned, exited, Process,
  Action, deliver, take_signal, cancel, see_done, return_from_run, exit, exit_code, enqueue,
  is_exited, watch, go_on, step, with_watch, with_main, with_signal, Reaches, start, next,
}
use blog_solutions.Local.Signals.Order.{
  IsSignalCode, Holds, IsQueued, IsWatched, IsExplained, IsOrdered, IsSound, AreSound,
  IsOrdered-IsWatched,
}

-- What the goroutine's step leads to.
abbrev IsKept : Process → Option (Watcher × Option Signal × Option ℕ × Bool) → Type 0
IsKept p none = Unit
IsKept p (some (w, s, i, c)) = IsQueued p.delivered s × IsOrdered p.delivered w i c p.main

with_watch-AreSound :
    (p : Process) (o : Option (Watcher × Option Signal × Option ℕ × Bool))
    → IsKept p o
    → AreSound (with_watch p o)
with_watch-AreSound p none k = tt
with_watch-AreSound p (some (w, s, i, c)) k = record { queued = k.0; ordered = k.1 }

take_signal-IsKept :
    (p : Process) (w : Watcher) (s : Option Signal) (i : Option ℕ) (c : Bool)
    → IsQueued p.delivered s
    → IsOrdered p.delivered w i c p.main
    → IsKept p (watch take_signal w s i c)
unfolding watch
take_signal-IsKept p waiting none i c q o = tt
take_signal-IsKept p waiting (some s) none c q o = (
  tt,
  IsOrdered-IsWatched p.delivered waiting cancelling none (some (128 + number s)) c c p.main
      (λ x. ((s, q, refl), x.1)) (λ x. absurd x) o,
)
take_signal-IsKept p waiting (some s) (some code) c q o = tt
take_signal-IsKept p cancelling s i c q o = tt
take_signal-IsKept p gone s i c q o = tt

cancel-IsKept :
    (p : Process) (w : Watcher) (s : Option Signal) (i : Option ℕ) (c : Bool)
    → IsQueued p.delivered s
    → IsOrdered p.delivered w i c p.main
    → IsKept p (watch cancel w s i c)
unfolding watch
cancel-IsKept p waiting s i c q o = tt
cancel-IsKept p cancelling s i c q o =
    (q, IsOrdered-IsWatched p.delivered cancelling gone i i c true p.main (λ x. x.0) (λ x. x) o)
cancel-IsKept p gone s i c q o = tt

see_done-IsKept :
    (p : Process) (w : Watcher) (s : Option Signal) (i : Option ℕ) (c : Bool)
    → IsQueued p.delivered s
    → IsOrdered p.delivered w i c p.main
    → IsKept p (watch see_done w s i c)
unfolding watch
see_done-IsKept p waiting s i false q o = tt
see_done-IsKept p waiting s i true q o = (
  q,
  IsOrdered-IsWatched p.delivered waiting gone i i true true p.main (λ x. absurd cc) (λ x. x) o,
)
see_done-IsKept p cancelling s i c q o = tt
see_done-IsKept p gone s i c q o = tt

IsQueued-enqueue :
    (s : Signal) (d : List Signal) (o : Option Signal)
    → IsQueued d o
    → IsQueued (s ∷ d) (enqueue o s)
IsQueued-enqueue s d none q = inl refl
IsQueued-enqueue s d (some t) q = inr q

Holds-cons : (s : Signal) (d : List Signal) (i : Option ℕ) → Holds d i → Holds (s ∷ d) i
Holds-cons s d none h = h
Holds-cons s d (some code) (t, a, e) = (t, inr a, e)

IsWatched-cons :
    (s : Signal) (d : List Signal) (w : Watcher) (i : Option ℕ) (c : Bool)
    → IsWatched d w i c
    → IsWatched (s ∷ d) w i c
IsWatched-cons s d waiting i c h = h
IsWatched-cons s d cancelling i c h = (Holds-cons s d i h.0, h.1)
IsWatched-cons s d gone i c h = Holds-cons s d i h

deliver-AreSound :
    (p : Process) (s : Signal) (m : Main)
    → IsQueued p.delivered p.signals
    → p.main ≡ m
    → IsOrdered p.delivered p.watcher p.interrupted p.cancelled m
    → AreSound (with_signal p s (is_exited m))
deliver-AreSound p s running q e o = record {
  queued = IsQueued-enqueue s p.delivered p.signals q;
  ordered = rw e (IsWatched-cons s p.delivered p.watcher p.interrupted p.cancelled o);
}
deliver-AreSound p s (returned failed cut) q e o = record {
  queued = IsQueued-enqueue s p.delivered p.signals q;
  ordered = rw e (
    IsWatched-cons s p.delivered p.watcher p.interrupted p.cancelled o.0,
    λ x. Holds-cons s p.delivered p.interrupted (o.1 x),
  );
}
deliver-AreSound p s (exited code failed cut) q e o = tt

-- A context that is done has the code in the channel.
done-Holds :
    (d : List Signal) (w : Watcher) (i : Option ℕ) (c : Bool)
    → IsWatched d w i c
    → c ≡ true
    → Holds d i
done-Holds d waiting i c h e = absurd cc
done-Holds d cancelling i c h e = absurd cc
done-Holds d gone i c h e = h

sent-IsSignalCode :
    (d : List Signal) (w : Watcher) (code : ℕ) (c : Bool)
    → IsWatched d w (some code) c
    → IsSignalCode d code
sent-IsSignalCode d waiting code c h = absurd cc
sent-IsSignalCode d cancelling code c h = h.0
sent-IsSignalCode d gone code c h = h

exit_code-IsExplained :
    (d : List Signal) (w : Watcher) (i : Option ℕ) (c failed cut : Bool)
    → IsWatched d w i c
    → (cut ≡ true → Holds d i)
    → IsExplained d (exit_code i failed) failed cut
unfolding exit_code
exit_code-IsExplained d w (some code) c failed cut h k = inl (sent-IsSignalCode d w code c h)
exit_code-IsExplained d w none c failed true h k = absurd (k refl)
exit_code-IsExplained d w none c true false h k = inr (refl, refl)
exit_code-IsExplained d w none c false false h k = inr (refl, refl)

return_from_run-AreSound :
    (p : Process) (failed : Bool) (m : Main)
    → IsQueued p.delivered p.signals
    → IsOrdered p.delivered p.watcher p.interrupted p.cancelled m
    → AreSound (with_main p (go_on (return_from_run failed) m p.interrupted p.cancelled))
unfolding go_on
return_from_run-AreSound p failed running q o = record {
  queued = q;
  ordered = (o, λ e. done-Holds p.delivered p.watcher p.interrupted p.cancelled o e);
}
return_from_run-AreSound p failed (returned f cut) q o = tt
return_from_run-AreSound p failed (exited code f cut) q o = tt

exit-AreSound :
    (p : Process) (m : Main)
    → IsQueued p.delivered p.signals
    → IsOrdered p.delivered p.watcher p.interrupted p.cancelled m
    → AreSound (with_main p (go_on exit m p.interrupted p.cancelled))
unfolding go_on
exit-AreSound p running q o = tt
exit-AreSound p (returned failed cut) q o = record {
  queued = q;
  ordered =
      exit_code-IsExplained p.delivered p.watcher p.interrupted p.cancelled failed cut o.0 o.1;
}
exit-AreSound p (exited code failed cut) q o = tt

step-AreSound : (a : Action) (p : Process) → IsSound p → AreSound (step a p)
unfolding step
step-AreSound (deliver s) p h = deliver-AreSound p s p.main h.queued refl h.ordered
step-AreSound take_signal p h =
    with_watch-AreSound p _
      (take_signal-IsKept p p.watcher p.signals p.interrupted p.cancelled h.queued h.ordered)
step-AreSound cancel p h =
    with_watch-AreSound p _
      (cancel-IsKept p p.watcher p.signals p.interrupted p.cancelled h.queued h.ordered)
step-AreSound see_done p h =
    with_watch-AreSound p _
      (see_done-IsKept p p.watcher p.signals p.interrupted p.cancelled h.queued h.ordered)
step-AreSound (return_from_run failed) p h =
    return_from_run-AreSound p failed p.main h.queued h.ordered
step-AreSound exit p h = exit-AreSound p p.main h.queued h.ordered

Reaches-IsSound : {p : Process} → Reaches p → IsSound p
Reaches-IsSound start = record { queued = tt; ordered = (refl, refl) }
Reaches-IsSound (next {p} {q} a r e) =
    let s : AreSound (step a p) = step-AreSound a p (Reaches-IsSound r) in rw e at s

-- In every order of the steps of the function, the goroutine and the signals: when the function has
-- returned a code then it is 128 and the number of a signal that the process has got, or the
-- context was not done when `run` returned, and the code is 1 if `run` has returned an error and 0
-- if not. So a run that a signal has cut short never looks like a success or a plain failure.
pub exit-IsExplained :
    {p : Process} (code : ℕ) (failed cut : Bool)
    → Reaches p
    → p.main ≡ exited code failed cut
    → IsExplained p.delivered code failed cut
exit-IsExplained {p} code failed cut r e =
    let o : IsOrdered p.delivered p.watcher p.interrupted p.cancelled p.main =
      (Reaches-IsSound r).ordered in
    rw e at o
