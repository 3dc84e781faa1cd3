-- ===== src/Service/Relay/Lifecycle/Kept.antt =====
-- internal/service/audit/relay.go: what every interleaving of starts, stops and goroutines keeps.
use disbursment_api.Base.{
  ℕ, suc, ◌<◌, ◌≤◌, ◌≡◌, refl, sym, ◌∙◌, Bool, true, false, some, ◌⊎◌, inl, inr, ◌==◌, Bool-cases,
  arith,
}
use mathlib.Core.Path.{subst}
use disbursment_api.Service.Relay.Worker.{
  Worker, set_at, started, start_worker, stopped, close_stop, stop_worker,
}
use disbursment_api.Service.Relay.Lifecycle.{
  Phase, absent, looping, leaving, ended, State, Step, start, cancel, see_stop, see_done, leave,
  stop, idle, Reach, made, later,
}

abbrev pub is_absent : Phase → Bool
is_absent absent = true
is_absent looping = false
is_absent leaving = false
is_absent ended = false

-- The stop channels: the one of a running worker is open, and all others that were made are closed.
pub record Channels (w : Worker) : Type 0 where
  pub open_channel : w.running ≡ true → w.stop_closed w.current ≡ false
  pub closed_channels :
      (i : ℕ)
      → 0 < i
      → i ≤ w.current
      → w.stop_closed i ≡ false
      → (w.running ≡ true) × (i ≡ w.current)
  pub nothing_running : w.running ≡ true → 0 < w.current

pub record Sound (s : State) : Type 0 where
  pub channels : Channels s.worker
  pub present : (i : ℕ) → 0 < i → i ≤ s.worker.current → is_absent (s.phase i) ≡ false
  pub told :
      (i : ℕ)
      → s.awaited i ≡ true
      → 0 < i
      → (i ≤ s.worker.current) × (s.worker.stop_closed i ≡ true)

start_worker_lem : (s w : Worker) → start_worker s ≡ some w → (s.running ≡ false) × (started s ≡ w)
unfolding start_worker
start_worker_lem s w e = elim (Bool-cases s.running) [
  | inl busy ↦ absurd (cc (rw busy at e))
  | inr idle ↦ (idle, cc (rw idle at e))
]

stop_worker_lem :
    (s w : Worker)
    → Channels s
    → stop_worker s ≡ some w
    → ((s.running ≡ true) × (stopped s ≡ w)) ⊎ ((s.running ≡ false) × (s ≡ w))
unfolding stop_worker close_stop
stop_worker_lem s w c e = elim (Bool-cases s.running) [
  | inl busy ↦ inl (busy, cc (rw (c.open_channel busy) at (rw busy at e)))
  | inr idle ↦ inr (idle, cc (rw idle at e))
]

set_at-same : {A : Type 0} (i : ℕ) (a : A) (f : ℕ → A) → set_at i a f i ≡ a
unfolding set_at
set_at-same i a f = ground arith

set_at-other : {A : Type 0} (i j : ℕ) (a : A) (f : ℕ → A) → (j == i) ≡ false → set_at i a f j ≡ f j
unfolding set_at
set_at-other i j a f h = rw h refl

set_at_hit : {A : Type 0} (i j : ℕ) (a : A) (f : ℕ → A) → (j == i) ≡ true → set_at i a f j ≡ a
unfolding set_at
set_at_hit i j a f h = rw h refl

set_at-kept :
    {A : Type 0} (test : A → Bool) (b : Bool) (i j : ℕ) (a : A) (f : ℕ → A)
    → test a ≡ b
    → test (f j) ≡ b
    → test (set_at i a f j) ≡ b
set_at-kept test b i j a f ha hf = elim (Bool-cases (j == i)) [
  | inl hit ↦ rw (set_at_hit i j a f hit) ha
  | inr miss ↦ rw (set_at-other i j a f miss) hf
]

started-Channels : (s : Worker) → s.running ≡ false → Channels s → Channels (started s)
started-Channels s idle c = record {
  open_channel = λ h. set_at-same (suc s.current) false s.stop_closed;
  closed_channels = λ i l m h. elim (Bool-cases (i == suc s.current)) [
    | inl last ↦ (refl, ground arith)
    | inr earlier ↦
        let kept = set_at-other (suc s.current) i false s.stop_closed earlier in
        absurd (ground (arith, c.closed_channels i l (ground arith) (sym kept ∙ h)))
  ];
  nothing_running = λ h. omega arith;
}

stopped-Channels : (s : Worker) → Channels s → Channels (stopped s)
stopped-Channels s c = record {
  open_channel = λ h. absurd (ground (arith, h));
  closed_channels = λ i l m h. elim (Bool-cases (i == s.current)) [
    | inl last ↦ absurd (ground (arith, set_at_hit s.current i true s.stop_closed last))
    | inr earlier ↦
        let kept = set_at-other s.current i true s.stop_closed earlier in
        absurd (ground (arith, c.closed_channels i l m (sym kept ∙ h)))
  ];
  nothing_running = λ h. absurd (ground (arith, h));
}

started-told :
    (s : Worker) (i : ℕ)
    → (i ≤ s.current) × (s.stop_closed i ≡ true)
    → (i ≤ (started s).current) × ((started s).stop_closed i ≡ true)
started-told s i (m, h) =
    (omega arith, rw (set_at-other (suc s.current) i false s.stop_closed (ground arith)) h)

-- The stop of a worker, whether one runs or not, in the three respects that the steps need.
pub record Halt (s w : Worker) : Type 0 where
  pub channels : Channels w
  pub same : w.current ≡ s.current
  pub told : (i : ℕ) → s.stop_closed i ≡ true → w.stop_closed i ≡ true
  pub silent : w.running ≡ false

stop_worker-Halt : (s w : Worker) → Channels s → stop_worker s ≡ some w → Halt s w
stop_worker-Halt s w c e = elim (stop_worker_lem s w c e) [
  | inl (busy, same) ↦
      subst (λ v. Halt s v) same
        (record {
          channels = stopped-Channels s c;
          same = refl;
          told = λ i h. set_at-kept (λ b. b) true s.current i true s.stop_closed refl h;
          silent = refl;
        })
  | inr (idle, same) ↦
      subst (λ v. Halt s v) same
        (record { channels = c; same = refl; told = λ i h. h; silent = idle })
]

module _ (s : State) (sound : Sound s) where
  moved-Sound :
      (i : ℕ) (p : Phase) → is_absent p ≡ false → Sound (record s { phase = set_at i p s.phase })
  moved-Sound i p here = record {
    channels = sound.channels;
    present = λ j l m. set_at-kept is_absent false i j p s.phase here (sound.present j l m);
    told = sound.told;
  }

  start-Sound :
      s.worker.running ≡ false
      → Sound (record s {
        worker = started s.worker;
        phase = set_at (suc s.worker.current) looping s.phase;
      })
  start-Sound idle = record {
    channels = started-Channels s.worker idle sound.channels;
    present = λ j l m. elim (Bool-cases (j == suc s.worker.current)) [
      | inl hit ↦ rw (set_at_hit (suc s.worker.current) j looping s.phase hit) refl
      | inr miss ↦
          rw (set_at-other (suc s.worker.current) j looping s.phase miss)
            (sound.present j l (ground arith))
    ];
    told = λ i a l. started-told s.worker i (sound.told i a l);
  }

  Halt-Sound : {w : Worker} → Halt s.worker w → Sound (record s { worker = w })
  Halt-Sound h = record {
    channels = h.channels;
    present = λ j l m. sound.present j l (omega (arith, h.same));
    told = λ i a l.
        let before = sound.told i a l in (omega (arith, before.0, h.same), h.told i before.1);
  }

awaited-Sound :
    (s : State)
    → Sound s
    → s.worker.running ≡ false
    → Sound (record s { awaited = set_at s.worker.current true s.awaited })
awaited-Sound s sound silent = record {
  channels = sound.channels;
  present = sound.present;
  told = λ i a l. elim (Bool-cases (i == s.worker.current)) [
    | inl last ↦ (ground arith, current_told i last l)
    | inr other ↦ sound.told i (sym (set_at-other s.worker.current i true s.awaited other) ∙ a) l
  ];
}
  where
    current_told : (i : ℕ) → (i == s.worker.current) ≡ true → 0 < i → s.worker.stop_closed i ≡ true
    current_told i last l = elim (Bool-cases (s.worker.stop_closed i)) [
      | inl closed ↦ closed
      | inr still ↦
          let both = sound.channels.closed_channels i l (ground arith) still in
          absurd (ground (arith, both.0, silent))
    ]

idle-Sound : Sound idle
idle-Sound = record {
  channels = record {
    open_channel = λ h. refl;
    closed_channels = λ i l m h. absurd (omega arith);
    nothing_running = λ h. absurd (ground (arith, h));
  };
  present = λ i l m. absurd (omega arith);
  told = λ i a l. absurd (ground (arith, a));
}

Step-Sound : {s t : State} → Step s t → Sound s → Sound t
Step-Sound {s} (start {w} e) sound =
    let begun = start_worker_lem s.worker w e in
    subst (λ v. Sound (record s { worker = v; phase = set_at v.current looping s.phase })) begun.1
      (start-Sound s sound begun.0)
Step-Sound (cancel i) sound = record {
  channels = sound.channels;
  present = sound.present;
  told = sound.told;
}
Step-Sound {s} (see_stop i at_loop closed) sound = moved-Sound s sound i ended refl
Step-Sound {s} (see_done i at_loop done) sound = moved-Sound s sound i leaving refl
Step-Sound {s} (leave i {w} at_end e) sound =
    moved-Sound (record s { worker = w })
      (Halt-Sound s sound (stop_worker-Halt s.worker w sound.channels e)) i ended refl
Step-Sound {s} (stop {w} e) sound =
    let halt = stop_worker-Halt s.worker w sound.channels e in
    awaited-Sound (record s { worker = w }) (Halt-Sound s sound halt) halt.silent

pub Reach-Sound : {s : State} → Reach s → Sound s
Reach-Sound made = idle-Sound
Reach-Sound (later r step) = Step-Sound step (Reach-Sound r)

-- Closing the stop channel of a sound state never meets a closed one.
pub stop_worker-Stops :
    (s : Worker) → Channels s → (w : Worker) × (stop_worker s ≡ some w) × Halt s w
unfolding stop_worker close_stop
stop_worker-Stops s c = elim (Bool-cases s.running) [
  | inl busy ↦
      let e : stop_worker s ≡ some (stopped s) = rw busy (rw (c.open_channel busy) refl) in
      (stopped s, e, stop_worker-Halt s (stopped s) c e)
  | inr idle ↦ let e : stop_worker s ≡ some s = rw idle refl in (s, e, stop_worker-Halt s s c e)
]
