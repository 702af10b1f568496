-- ===== src/Local/Signals/Runs.antt =====
-- A process that is interrupted, and the arguments of `main`.
use blog_solutions.Prelude.{◌≡◌, refl, true, [], ◌∷◌, none, some}
use blog_solutions.Local.Signals.{
  interrupt, cancelling, gone, returned, exited, Process, deliver, take_signal, cancel,
  return_from_run, exit, exit_code, watch, go_on, step, started, Reaches, start, next, refuse,
  main_plan,
}
use blog_solutions.Local.Signals.Exits.{exit-IsExplained}
use blog_solutions.Local.Signals.Order.{IsExplained}

abbrev after_signal : Process
after_signal = record started { signals = some interrupt; delivered = interrupt ∷ [] }

abbrev after_taking : Process
after_taking = record after_signal { signals = none; interrupted = some 130; watcher = cancelling }

abbrev after_cancel : Process
after_cancel = record after_taking { cancelled = true; watcher = gone }

abbrev after_run : Process
after_run = record after_cancel { main = returned true true }

abbrev after_exit : Process
after_exit = record after_run { main = exited 130 true true; interrupted = none }

after_exit-Reaches : Reaches after_exit
unfolding step watch go_on exit_code
after_exit-Reaches =
    next {p = after_run} exit
      (next {p = after_cancel} (return_from_run true)
        (next {p = after_taking} cancel
          (next {p = after_signal} take_signal (next {p = started} (deliver interrupt) start refl)
            refl)
          refl)
        refl)
      refl

exit-IsExplained_example : IsExplained (interrupt ∷ []) 130 true true
exit-IsExplained_example = exit-IsExplained 130 true true after_exit-Reaches refl

refused : main_plan 1 true ≡ refuse 2
unfolding main_plan
refused = refl
