-- ===== src/Server/Monitor/Stopping.antt =====
-- How the loop of `monitor` follows the signals.
use greylist.Base.{
  ◌+◌, ◌≡◌, refl, sym, ap, ◌∙◌, subst, ◌≢◌, ◌⊎◌, inl, inr, true, false, List, ◌∷◌, ◌++◌, arith,
}
use greylist.Signals.{
  Signal, unset, sighup, sigquit, sigusr2, deliver, deliver_pending, deliver-append, Signal-cases,
}
use greylist.Server.Monitor.{
  Tick, Intervals, Monitor, goes_on, is_due, refresh, sleep, count, left, monitor,
}

-- The signals that end the loop.
abbrev pub Stops : Signal → Type 0
Stops g = (g ≡ sigquit) ⊎ (g ≡ sighup)

Stops-ne_unset : (g : Signal) → Stops g → g ≢ unset
Stops-ne_unset g (inl e) z = cc
Stops-ne_unset g (inr e) z = cc

-- All signals that arrive in a round.
abbrev pub arrivals : Tick → List Signal
arrivals t = t.before_quit ++ t.before_hangup ++ t.before_check ++ t.before_reset ++ t.asleep

count-signal : (i : Intervals) (m : Monitor) → (count i m).signal ≡ m.signal
unfolding count
count-signal i m = ground arith

refresh-signal :
    (i : Intervals) (t : Tick) (m : Monitor) (g : Signal)
    → Stops g
    → deliver t.before_reset (deliver t.before_check m.signal) ≡ g
    → (refresh i t m).signal ≡ g
unfolding refresh
refresh-signal i t m g s e = ground (arith, s, e)

-- Without a signal before the sleep there is none to reset.
refresh_none :
    (i : Intervals) (t : Tick) (m : Monitor)
    → deliver t.before_reset (deliver t.before_check m.signal) ≡ unset
    → (refresh i t m).signal ≡ unset
unfolding refresh
refresh_none i t m e = ground (arith, e)

-- A signal to stop that was there before the sleep, or is the first to arrive in it.
sleep-signal :
    (i : Intervals) (t : Tick) (m : Monitor) (g : Signal)
    → Stops g
    → deliver t.asleep (deliver t.before_reset (deliver t.before_check m.signal)) ≡ g
    → (sleep t (refresh i t m)).signal ≡ g
unfolding sleep
sleep-signal i t m g s e =
    elim (Signal-cases (deliver t.before_reset (deliver t.before_check m.signal))) [
      | inl z ↦ ap (deliver t.asleep) (refresh_none i t m z) ∙ ap (deliver t.asleep) (sym z) ∙ e
      | inr n ↦
          let same = sym (deliver_pending t.asleep _ n) ∙ e in
          ap (deliver t.asleep) (refresh-signal i t m g s same)
          ∙ deliver_pending t.asleep g (Stops-ne_unset g s)
    ]

-- A pending SIGQUIT or SIGHUP ends the loop at its condition.
monitor_pending :
    (i : Intervals) (t : Tick) (ticks : List Tick) (m : Monitor)
    → Stops m.signal
    → monitor i (t ∷ ticks) m ≡ left true m
unfolding monitor goes_on
monitor_pending i t ticks m s =
    let q = deliver_pending t.before_quit m.signal (Stops-ne_unset m.signal s) in
    let h = deliver_pending t.before_hangup m.signal (Stops-ne_unset m.signal s) in
    ground (arith, s, q, h)

arrivals-deliver :
    (t : Tick)
    → deliver (arrivals t) unset
      ≡ deliver t.asleep (
          deliver t.before_reset
            (deliver t.before_check (deliver t.before_hangup (deliver t.before_quit unset))))
arrivals-deliver t =
    deliver-append (t.before_quit ++ t.before_hangup ++ t.before_check ++ t.before_reset) t.asleep
      unset
    ∙ ap (deliver t.asleep) (
        deliver-append (t.before_quit ++ t.before_hangup ++ t.before_check) t.before_reset unset
        ∙ ap (deliver t.before_reset) (
            deliver-append (t.before_quit ++ t.before_hangup) t.before_check unset
            ∙ ap (deliver t.before_check) (deliver-append t.before_quit t.before_hangup unset)))

-- The first signal of the round ends the loop at once, or it is there behind the condition.
goes_on-cases :
    (t : Tick) (m : Monitor) (g : Signal)
    → m.signal ≡ unset
    → t.interrupted ≡ false
    → Stops g
    → deliver (arrivals t) unset ≡ g
    → (goes_on t m ≡ (false, record m { signal = g }))
      ⊎ ((b : Signal) × (goes_on t m ≡ (true, record m { signal = b }))
          × (deliver t.asleep (deliver t.before_reset (deliver t.before_check b)) ≡ g))
unfolding goes_on
goes_on-cases t m g e f s d =
    let d' = sym (arrivals-deliver t) ∙ d in
    elim (Signal-cases (deliver t.before_quit unset)) [
      | inr n ↦
          let h = deliver_pending t.before_hangup _ n in
          let c = deliver_pending t.before_check _ n in
          let r = deliver_pending t.before_reset _ n in
          let a = deliver_pending t.asleep _ n in inl (ground (arith, e, s, d', h, c, r, a))
      | inl q ↦ elim (Signal-cases (deliver t.before_hangup unset)) [
        | inl h ↦ inr (unset, ground (arith, e, f, q, h), ground (arith, d', q, h))
        | inr n ↦
            let c = deliver_pending t.before_check _ n in
            let r = deliver_pending t.before_reset _ n in
            let a = deliver_pending t.asleep _ n in
            elim s [
              | inl k ↦ inr (
                sigquit,
                ground (arith, e, f, d', q, c, r, a, k),
                ground (arith, d', q, c, r, a, k),
              )
              | inr k ↦ inl (ground (arith, e, f, d', q, c, r, a, k))
            ]
      ]
    ]

-- If no signal is pending, the thread is not interrupted in this round, and the first signal to
-- arrive in it is SIGQUIT or SIGHUP, at whatever point: then the loop of `monitor` ends in this
-- round or at the condition of the next, with this signal pending, and the listening socket is
-- shut down.
pub monitor_leaves :
    (i : Intervals) (t next : Tick) (ticks : List Tick) (m : Monitor) (g : Signal)
    → m.signal ≡ unset
    → t.interrupted ≡ false
    → Stops g
    → deliver (arrivals t) unset ≡ g
    → (m' : Monitor) × (monitor i (t ∷ next ∷ ticks) m ≡ left true m') × (m'.signal ≡ g)
unfolding monitor
monitor_leaves i t next ticks m g e f s d = elim (goes_on-cases t m g e f s d) [
  | inl k ↦ (
    record m { signal = g },
    rw (k, monitor) (elim s [ inl z ↦ rw z refl | inr z ↦ rw z refl ]),
    refl,
  )
  | inr (b, k, r) ↦
      let m' = count i (sleep t (refresh i t (record m { signal = b }))) in
      let same =
        count-signal i (sleep t (refresh i t (record m { signal = b })))
        ∙ sleep-signal i t (record m { signal = b }) g s r in
      (m', rw (k, monitor) (monitor_pending i next ticks m' (subst Stops (sym same) s)), same)
]

refresh-usr2 :
    (i : Intervals) (t : Tick) (m : Monitor)
    → m.signal ≡ sigusr2
    → refresh i t m
      ≡ record m { signal = unset; last_refresh = t.refreshed_at; refreshes = m.refreshes + 1 }
unfolding refresh is_due
refresh-usr2 i t m e =
    let c = deliver_pending t.before_check sigusr2 (λ z. cc z) in
    let r = deliver_pending t.before_reset sigusr2 (λ z. cc z) in rw (e, c, r, refresh) refl

goes_on-usr2 :
    (t : Tick) (m : Monitor)
    → m.signal ≡ sigusr2
    → t.interrupted ≡ false
    → goes_on t m ≡ (true, record m { signal = sigusr2 })
unfolding goes_on
goes_on-usr2 t m e f =
    let q = deliver_pending t.before_quit sigusr2 (λ z. cc z) in
    let h = deliver_pending t.before_hangup sigusr2 (λ z. cc z) in rw (e, q, h, f, goes_on) refl

count-refreshes : (i : Intervals) (m : Monitor) → (count i m).refreshes ≡ m.refreshes
unfolding count
count-refreshes i m = ground arith

-- If SIGUSR2 is pending and the thread is not interrupted in this round: the caches are refreshed,
-- the loop goes on, and the signal that is pending behind the round is the first of those that
-- arrive behind the reset, or none. Those that arrive before the reset are lost.
pub monitor-usr2 :
    (i : Intervals) (t : Tick) (ticks : List Tick) (m : Monitor)
    → m.signal ≡ sigusr2
    → t.interrupted ≡ false
    → (m' : Monitor) × (monitor i (t ∷ ticks) m ≡ monitor i ticks m')
      × (m'.signal ≡ deliver t.asleep unset)
      × (m'.refreshes ≡ m.refreshes + 1)
unfolding monitor sleep
monitor-usr2 i t ticks m e f =
    let r = refresh i t (record m { signal = sigusr2 }) in
    let r_eq = refresh-usr2 i t (record m { signal = sigusr2 }) refl in
    (
      count i (sleep t r),
      rw (goes_on-usr2 t m e f, monitor) refl,
      count-signal i (sleep t r) ∙ ap (λ (n : Monitor). deliver t.asleep n.signal) r_eq,
      count-refreshes i (sleep t r) ∙ ap (λ (n : Monitor). n.refreshes) r_eq,
    )
