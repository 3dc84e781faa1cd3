-- ===== src/Metrics/Counters/Lossless.antt =====
-- internal/observability/metrics/collector.go: no concurrent call of incMapCounter is lost.
use disbursment_api.Base.{
  ℕ, ◌+◌, ◌%◌, ◌<◌, ◌≡◌, refl, some, List, [], ◌∷◌, ◌++◌, inl, inr, All, count, arith, Option-cases,
}
use disbursment_api.Base.Int.{full_range}
use disbursment_api.Base.Parts.{count-append, All-parts, All-join, All-map}
use disbursment_api.Base.Text.{Text, text_eq}
use disbursment_api.Metrics.Counters.{
  Counters, Call, looking, missing, adding, turn, Reach, made, call, move, value,
}
use disbursment_api.Metrics.Counters.Turning.{concerns, Holds, Separate, turn-Turned}

Holds-kept :
    (m m' : Counters)
    → ((k : Text) (p : ℕ) → m.slots k ≡ some p → m'.slots k ≡ some p)
    → (c : Call) → Holds m c
    → Holds m' c
Holds-kept m m' kept (looking k) h = tt
Holds-kept m m' kept (missing k) h = tt
Holds-kept m m' kept (adding k p) h = kept k p h

record Sound (m : Counters) (calls : List Call) (keys : List Text) : Type 0 where
  pub separate : Separate m
  pub held : All (Holds m) calls
  pub total :
      (k : Text)
      → (value m k + count (concerns k) calls) % full_range ≡ count (text_eq k) keys % full_range

move-Sound :
    {keys : List Text} (m : Counters) (before : List Call) (c : Call) (after : List Call)
    → Sound m (before ++ c ∷ after) keys
    → Sound (turn c m).0 (before ++ ((turn c m).1 ++ after)) keys
move-Sound m before c after s =
    let m' = (turn c m).0 in
    let calls = (turn c m).1 in
    let (front, own_and_back) = All-parts (Holds m) before (c ∷ after) s.held in
    let (own, back) = own_and_back in
    let t = turn-Turned c m s.separate own in
    let kept = Holds-kept m m' t.same_slots in
    record {
      separate = t.separate;
      held =
          All-join (Holds m') before (calls ++ after) (All-map before kept front)
            (All-join (Holds m') calls after t.held (All-map after kept back));
      total = λ k. omega (
        arith,
        count-append (concerns k) before (calls ++ after),
        count-append (concerns k) calls after,
        count-append (concerns k) before (c ∷ after),
        count-append (concerns k) (c ∷ []) after,
        t.balance k,
        s.total k,
      );
    }

Reach-Sound :
    {m : Counters} {calls : List Call} {keys : List Text} → Reach m calls keys → Sound m calls keys
Reach-Sound made = record {
  separate = record {
    distinct = λ j k p h h'. absurd (cc h);
    fresh = λ k p h. absurd (cc h);
    small = λ p. omega arith;
  };
  held = tt;
  total = λ k. refl;
}
Reach-Sound (call {m} {calls} {keys} k r) =
    let s = Reach-Sound r in
    record { separate = s.separate; held = (tt, s.held); total = λ j. ground (arith, s.total j) }
Reach-Sound (move {m} before c after r) = move-Sound m before c after (Reach-Sound r)

value-small : (m : Counters) (k : Text) → Separate m → value m k < full_range
value-small m k s = elim (Option-cases (m.slots k)) [
  | inl nothing ↦ rw nothing (omega arith)
  | inr (p, there) ↦ rw there (s.small p)
]

-- However any number of calls of incMapCounter interleave, none is lost and none counts twice: the
-- number that is read for a key, with the calls for it that are still under way, is the number of calls
-- for the key so far, modulo 2 ^ 64; so that, when none is under way, it is that number.
pub turn-Lossless :
    {m : Counters} {calls : List Call} {keys : List Text} (k : Text)
    → Reach m calls keys
    → (value m k < full_range)
      × ((value m k + count (concerns k) calls) % full_range ≡ count (text_eq k) keys % full_range)
turn-Lossless {m} k r = let s = Reach-Sound r in (value-small m k s.separate, s.total k)
