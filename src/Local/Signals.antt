-- ===== src/Local/Signals.antt =====
-- `main` and `executeWithSignals`, word for word the same in the local reproductions but for texts:
-- evm/evm-tx-understanding-legacy-ethereum/transaction-types/local/main.go
pub mod Order
pub mod Exits
mod Runs
use blog_solutions.Prelude.{
  ℕ, zero, suc, ◌+◌, ◌≡◌, Bool, true, false, List, [], ◌∷◌, Option, none, some,
}

-- `os.Interrupt` and `syscall.SIGTERM`.
pub data Signal : Type 0 where
  interrupt terminate : Signal

abbrev pub number : Signal → ℕ
number interrupt = 2
number terminate = 15

-- The goroutine: in its `select`, between the send and `cancel`, or ended.
pub data Watcher : Type 0 where
  waiting cancelling gone : Watcher

-- The function itself: in `run`, behind it, with an error or without one, or returned. `cut` says
-- whether the context was done when `run` returned.
pub data Main : Type 0 where
  running : Main
  returned : (failed cut : Bool) → Main
  exited : (code : ℕ) → (failed cut : Bool) → Main

-- Both channels have room for one value. `delivered` are the signals that the process has got.
pub record Process : Type 0 where
  pub signals : Option Signal
  pub interrupted : Option ℕ
  pub cancelled : Bool
  pub watcher : Watcher
  pub main : Main
  pub delivered : List Signal

-- What goes on by itself: a signal arrives; the goroutine takes a signal and sends the code,
-- cancels the context, or sees that it is done; `run` returns; and the function returns.
pub data Action : Type 0 where
  deliver : Signal → Action
  take_signal cancel see_done : Action
  return_from_run : (failed : Bool) → Action
  exit : Action

-- `signal.Notify` does not wait: a signal for which there is no room is lost.
abbrev pub enqueue : Option Signal → Signal → Option Signal
enqueue none s = some s
enqueue (some t) s = some t

-- The code, where the channel has one, comes before the error.
unfoldable pub exit_code : Option ℕ → Bool → ℕ
exit_code (some code) failed = code
exit_code none true = 1
exit_code none false = 0

abbrev pub is_exited : Main → Bool
is_exited (exited code failed cut) = true
is_exited _ = false

-- The steps of the goroutine, with the signals, the codes and the context.
unfoldable pub watch :
    Action
    → Watcher
    → Option Signal
    → Option ℕ
    → Bool
    → Option (Watcher × Option Signal × Option ℕ × Bool)
watch take_signal waiting (some s) none cancelled =
    some (cancelling, none, some (128 + number s), cancelled)
watch cancel cancelling signals interrupted cancelled = some (gone, signals, interrupted, true)
watch see_done waiting signals interrupted true = some (gone, signals, interrupted, true)
watch _ _ _ _ _ = none

-- The steps of the function. As it returns, the deferred `cancel` runs.
unfoldable pub go_on : Action → Main → Option ℕ → Bool → Option (Main × Option ℕ × Bool)
go_on (return_from_run failed) running interrupted cancelled =
    some (returned failed cancelled, interrupted, cancelled)
go_on exit (returned failed cut) interrupted cancelled =
    some (exited (exit_code interrupted failed) failed cut, none, true)
go_on _ _ _ _ = none

-- A step of the process, which has none of that kind where this is `none`.
abbrev pub with_watch :
    Process → Option (Watcher × Option Signal × Option ℕ × Bool) → Option Process
with_watch p none = none
with_watch p (some (watcher, signals, interrupted, cancelled)) = some (record p {
  watcher = watcher;
  signals = signals;
  interrupted = interrupted;
  cancelled = cancelled;
})

abbrev pub with_main : Process → Option (Main × Option ℕ × Bool) → Option Process
with_main p none = none
with_main p (some (main, interrupted, cancelled)) =
    some (record p { main = main; interrupted = interrupted; cancelled = cancelled })

abbrev pub with_signal : Process → Signal → Bool → Option Process
with_signal p s true = none
with_signal p s false =
    some (record p { signals = enqueue p.signals s; delivered = s ∷ p.delivered })

unfoldable pub step : Action → Process → Option Process
step (deliver s) p = with_signal p s (is_exited p.main)
step take_signal p = with_watch p (watch take_signal p.watcher p.signals p.interrupted p.cancelled)
step cancel p = with_watch p (watch cancel p.watcher p.signals p.interrupted p.cancelled)
step see_done p = with_watch p (watch see_done p.watcher p.signals p.interrupted p.cancelled)
step (return_from_run failed) p =
    with_main p (go_on (return_from_run failed) p.main p.interrupted p.cancelled)
step exit p = with_main p (go_on exit p.main p.interrupted p.cancelled)

abbrev pub started : Process
started = record {
  signals = none;
  interrupted = none;
  cancelled = false;
  watcher = waiting;
  main = running;
  delivered = [];
}

-- The processes that some order of the steps leads to.
pub data Reaches : Process → Type 0 where
  start : Reaches started
  next : {p q : Process} (a : Action) → Reaches p → step a p ≡ some q → Reaches q

-- What `main` does with the arguments that are left and the flag: it exits with a code, prints what
-- it would do, or goes on to `executeWithSignals`.
pub data Plan : Type 0 where
  refuse : ℕ → Plan
  print_plan execute_with_signals : Plan

unfoldable pub main_plan : (arguments : ℕ) (execute : Bool) → Plan
main_plan (suc n) execute = refuse 2
main_plan zero false = print_plan
main_plan zero true = execute_with_signals
