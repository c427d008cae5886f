-- ===== src/Signals.antt =====
-- src/system.cpp: `g_signal` and the handler that sets it.
use greylist.Base.{
  ◌≡◌, refl, ◌≢◌, ◌⊎◌, inl, inr, Bool, not, List, [], ◌∷◌, ◌++◌, if◌then◌else◌, codes, Result, ok,
  err,
}

-- The values of `g_signal`: 0, or one of the signals that have the handler.
pub data Signal : Type 0 where
  unset : Signal
  sighup : Signal
  sigquit : Signal
  sigusr2 : Signal

-- `signal_handler`, on the signal and `g_signal`.
unfoldable pub signal_handler : Signal → Signal → Signal
signal_handler arrived unset = arrived
signal_handler arrived sighup = sighup
signal_handler arrived sigquit = sigquit
signal_handler arrived sigusr2 = sigusr2

-- The signals that arrive, one after the other.
unfoldable pub deliver : List Signal → Signal → Signal
unfolding signal_handler
deliver [] g = g
deliver (arrived ∷ arriving) g = deliver arriving (signal_handler arrived g)

-- `setupSignalHandlers`, on whether each call of `sigaction` returns 0.
unfoldable pub setup_signal_handlers : Bool → Bool → Bool → Result (Unit {0})
setup_signal_handlers hup quit usr2 =
    if not hup
    then err (codes "Failed to install signal handler SIGHUP")
    else if not quit
    then err (codes "Failed to install signal handler SIGQUIT")
    else if not usr2
    then err (codes "Failed to install signal handler SIGUSR2")
    else ok tt

-- A pending signal stays until it is reset.
pub deliver_pending : (arriving : List Signal) (g : Signal) → g ≢ unset → deliver arriving g ≡ g
unfolding deliver signal_handler
deliver_pending [] g h = refl
deliver_pending (arrived ∷ arriving) unset h = absurd (h refl)
deliver_pending (arrived ∷ arriving) sighup h = deliver_pending arriving sighup h
deliver_pending (arrived ∷ arriving) sigquit h = deliver_pending arriving sigquit h
deliver_pending (arrived ∷ arriving) sigusr2 h = deliver_pending arriving sigusr2 h

pub deliver-append :
    (xs ys : List Signal) (g : Signal) → deliver (xs ++ ys) g ≡ deliver ys (deliver xs g)
unfolding deliver
deliver-append [] ys g = refl
deliver-append (x ∷ xs) ys g = deliver-append xs ys (signal_handler x g)

pub Signal-cases : (g : Signal) → (g ≡ unset) ⊎ (g ≢ unset)
Signal-cases unset = inl refl
Signal-cases sighup = inr (λ e. cc e)
Signal-cases sigquit = inr (λ e. cc e)
Signal-cases sigusr2 = inr (λ e. cc e)
