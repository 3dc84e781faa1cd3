-- ===== src/Service/Relay/Lifecycle/Ending.antt =====
-- internal/service/audit/relay.go: a stop of the worker tells every goroutine, and its wait can end.
use disbursment_api.Base.{
  ℕ, ◌<◌, ◌≤◌, ◌≡◌, refl, true, false, some, ◌⊎◌, inl, inr, Bool-cases, arith,
}
use disbursment_api.Service.Relay.Worker.{Worker, set_at, stop_worker}
use disbursment_api.Service.Relay.Lifecycle.{
  Phase, absent, looping, leaving, ended, State, Step, see_stop, leave, Reach,
}
use disbursment_api.Service.Relay.Lifecycle.Kept.{Reach-Sound, stop_worker-Stops}

-- However starts, stops, cancellations and the goroutines' own steps interleave, stopping the worker
-- next closes no channel twice, and then no worker runs and the stop channel of every start so far is
-- closed.
pub Reach-stop_worker :
    {s : State}
    → Reach s
    → (w : Worker) × (stop_worker s.worker ≡ some w)
      × (w.running ≡ false)
      × ((i : ℕ) → 0 < i → i ≤ w.current → w.stop_closed i ≡ true)
Reach-stop_worker {s} r =
    let (w, e, halt) = stop_worker-Stops s.worker (Reach-Sound r).channels in
    (
      w,
      e,
      halt.silent,
      λ i l m. elim (Bool-cases (w.stop_closed i)) [
        | inl closed ↦ closed
        | inr still ↦
            let both = halt.channels.closed_channels i l m still in
            absurd (ground (arith, both.0, halt.silent))
      ],
    )

-- However starts, stops, cancellations and the goroutines' own steps interleave, a StopWorker that
-- waits for the goroutine of a start waits for one that has ended, or that can end by its next step.
pub awaited-Ends :
    {s : State} (i : ℕ)
    → Reach s
    → 0 < i
    → s.awaited i ≡ true
    → (s.phase i ≡ ended) ⊎ ((t : State) × Step s t × (t.phase i ≡ ended))
unfolding set_at
awaited-Ends {s} i r l a = go (s.phase i) refl
  where
    go :
        (p : Phase)
        → s.phase i ≡ p
        → (s.phase i ≡ ended) ⊎ ((t : State) × Step s t × (t.phase i ≡ ended))
    go absent e =
        let told = (Reach-Sound r).told i a l in
        absurd (ground (arith, (Reach-Sound r).present i l told.0, e))
    go looping e = inr (
      record s { phase = set_at i ended s.phase },
      see_stop i e ((Reach-Sound r).told i a l).1,
      ground arith,
    )
    go leaving e =
        let (w, stops, halt) = stop_worker-Stops s.worker (Reach-Sound r).channels in
        inr (record s { worker = w; phase = set_at i ended s.phase }, leave i e stops, ground arith)
    go ended e = inl e
