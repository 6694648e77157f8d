-- ===== src/Backend/Routes/Pages/Watch.antt =====
-- backend/main.py: the loop of `ws_logs` that waits for the browser to leave, and its end.
use test_orch.Base.{
  ◌≡◌, Bool, true, false, List, [], ◌∷◌, ◌++◌, Option, none, some, All, arith, if◌then◌else◌,
}
use test_orch.Base.Result.{Result, ok, err, Exception}

-- What `receive_text` comes to within its second.
pub data Signal : Type 0 where
  received timed_out disconnected : Signal
  raised : Exception → Signal

-- One turn of the loop: whether the consumer's task is done at its start, and the signal then.
pub record Turn : Type 0 where
  pub consumer_done : Bool
  pub signal : Signal

-- How the route ends, and whether it has cancelled the consumer.
pub record Ending : Type 0 where
  pub outcome : Result (Unit {0})
  pub consumer_cancelled : Bool

-- `finally: consumer.cancel()`
abbrev ended : Result (Unit {0}) → Option Ending
ended outcome = some (record { outcome = outcome; consumer_cancelled = true })

abbrev answer : Signal → Option Ending → Option Ending
answer received rest = rest
answer timed_out rest = rest
answer disconnected rest = ended (ok tt)
answer (raised e) rest = ended (err e)

-- None while the browser is there and the consumer lives.
unfoldable pub watch_browser : List Turn → Option Ending
watch_browser [] = none
watch_browser (t ∷ turns) =
    let rest = watch_browser turns in
    if t.consumer_done then ended (ok tt) else answer t.signal rest

-- Nothing ends the loop in this turn.
abbrev pub IsQuiet : Turn → Type 0
IsQuiet t = (t.consumer_done ≡ false) × (answer t.signal none ≡ none)

-- A consumer that has died does not leave the browser hanging: whatever quiet turns were before,
-- the turn that finds it done ends the route without an exception.
pub watch_browser-notices :
    (before : List Turn) (t : Turn) (turns : List Turn)
    → All IsQuiet before
    → t.consumer_done ≡ true
    → watch_browser (before ++ (t ∷ turns))
      ≡ some (record { outcome = ok tt; consumer_cancelled = true })
unfolding watch_browser
watch_browser-notices [] t turns quiet done = ground (arith, done)
watch_browser-notices (u ∷ before) t turns quiet done =
    ground (arith, watch_browser-notices before t turns quiet.1 done)

-- However the route ends, the consumer's task is cancelled.
pub watch_browser-cancels :
    (turns : List Turn) (end : Ending)
    → watch_browser turns ≡ some end
    → end.consumer_cancelled ≡ true
unfolding watch_browser
watch_browser-cancels [] end h = cc
watch_browser-cancels (t ∷ turns) end h = ground (arith, watch_browser-cancels turns end)
