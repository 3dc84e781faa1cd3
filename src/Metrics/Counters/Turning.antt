-- ===== src/Metrics/Counters/Turning.antt =====
-- internal/observability/metrics/collector.go: what one turn of a call of incMapCounter does.
use disbursment_api.Base.{
  ℕ, ◌+◌, ◌%◌, ◌<◌, ◌≡◌, refl, sym, ◌∙◌, Bool, true, none, some, List, [], ◌∷◌, ◌==◌, if◌then◌else◌,
  inl, inr, All, count, ◌⊎◌, arith, Bool-cases, Option-cases,
}
use disbursment_api.Base.Int.{full_range}
use disbursment_api.Base.Text.{Text, text_eq, text_eq-same, text_eq_sound}
use disbursment_api.Metrics.Counters.{
  Counters, Call, looking, missing, adding, key_of, allocate, add_one, turn, value,
}

-- The call is for the key.
abbrev pub concerns : Text → Call → Bool
concerns k c = text_eq k (key_of c)

abbrev pub Holds : Counters → Call → Type 0
Holds m (looking k) = Unit {0}
Holds m (missing k) = Unit {0}
Holds m (adding k p) = m.slots k ≡ some p

-- Different keys have different cells, which have been made, and hold 64-bit numbers.
pub record Separate (m : Counters) : Type 0 where
  pub distinct : (j k : Text) (p : ℕ) → m.slots j ≡ some p → m.slots k ≡ some p → j ≡ k
  pub fresh : (k : Text) (p : ℕ) → m.slots k ≡ some p → p < m.next
  pub small : (p : ℕ) → m.cells p < full_range

-- A turn of a call keeps that, and its key's number grows when the call has returned.
pub record Turned (c : Call) (m m' : Counters) (calls : List Call) : Type 0 where
  pub separate : Separate m'
  pub same_slots : (k : Text) (p : ℕ) → m.slots k ≡ some p → m'.slots k ≡ some p
  pub held : All (Holds m') calls
  pub balance :
      (k : Text)
      → (value m' k + count (concerns k) calls) % full_range
        ≡ (value m k + count (concerns k) (c ∷ [])) % full_range

same_call :
    (m : Counters) (c d : Call)
    → key_of c ≡ key_of d
    → Separate m
    → Holds m d
    → Turned c m m (d ∷ [])
same_call m c d e separate held = record {
  separate = separate;
  same_slots = λ k p h. h;
  held = (held, tt);
  balance = λ k. rw e refl;
}

-- A key of the map after an allocation: the new one, or one that was there.
slots-allocate :
    (k j : Text) (m : Counters) (p : ℕ)
    → (allocate k m).slots j ≡ some p
    → ((j ≡ k) × (p ≡ m.next)) ⊎ (m.slots j ≡ some p)
unfolding allocate
slots-allocate k j m p h = elim (Bool-cases (text_eq j k)) [
  | inl same ↦ inl (text_eq_sound j k same, ground (arith, same, h))
  | inr other ↦ inr (rw other at h)
]

allocate-Separate :
    (k : Text) (m : Counters) → m.slots k ≡ none → Separate m → Separate (allocate k m)
unfolding allocate
allocate-Separate k m nothing s = record {
  distinct = λ i j p hi hj. elim (slots-allocate k i m p hi) [
    | inl a ↦ elim (slots-allocate k j m p hj) [
      | inl b ↦ a.0 ∙ sym b.0
      | inr b ↦ absurd (omega (arith, a.1, s.fresh j p b))
    ]
    | inr a ↦ elim (slots-allocate k j m p hj) [
      | inl b ↦ absurd (omega (arith, b.1, s.fresh i p a))
      | inr b ↦ s.distinct i j p a b
    ]
  ];
  fresh = λ j p h. elim (slots-allocate k j m p h) [
    | inl new ↦ omega (arith, new.1)
    | inr old ↦ omega (arith, s.fresh j p old)
  ];
  small = λ p. ground (arith, s.small p);
}

value-allocate :
    (k j : Text) (m : Counters) → m.slots k ≡ none → Separate m → value (allocate k m) j ≡ value m j
unfolding allocate
value-allocate k j m nothing s = elim (Bool-cases (text_eq j k)) [
  | inl same ↦
      let names : j ≡ k = text_eq_sound j k same in rw same (rw names (rw nothing (ground arith)))
  | inr other ↦ elim (Option-cases (m.slots j)) [
    | inl none_there ↦ rw other (rw none_there refl)
    | inr (p, there) ↦ rw other (rw there (ground (arith, s.fresh j p there)))
  ]
]

slots-new : (k : Text) (m : Counters) → (allocate k m).slots k ≡ some m.next
unfolding allocate
slots-new k m = rw (text_eq-same k) refl

slots-kept :
    (k j : Text) (m : Counters) (p : ℕ)
    → m.slots k ≡ none
    → m.slots j ≡ some p
    → (allocate k m).slots j ≡ some p
unfolding allocate
slots-kept k j m p nothing h = elim (Bool-cases (text_eq j k)) [
  | inl same ↦
      let names : j ≡ k = text_eq_sound j k same in absurd (cc (sym (rw names at h) ∙ nothing))
  | inr other ↦ rw other h
]

allocate-Turned :
    (k : Text) (m : Counters)
    → m.slots k ≡ none
    → Separate m
    → Turned (missing k) m (allocate k m) (adding k m.next ∷ [])
allocate-Turned k m nothing s = record {
  separate = allocate-Separate k m nothing s;
  same_slots = λ j p h. slots-kept k j m p nothing h;
  held = (slots-new k m, tt);
  balance = λ j. rw (value-allocate k j m nothing s) refl;
}

value-add_one :
    (k j : Text) (p : ℕ) (m : Counters)
    → m.slots k ≡ some p
    → Separate m
    → value (add_one p m) j % full_range ≡ (value m j + (if text_eq j k then 1 else 0)) % full_range
unfolding add_one
value-add_one k j p m here s = elim (Bool-cases (text_eq j k)) [
  | inl same ↦
      let names : j ≡ k = text_eq_sound j k same in rw same (rw names (rw here (ground arith)))
  | inr other ↦ elim (Option-cases (m.slots j)) [
    | inl none_there ↦ rw other (rw none_there refl)
    | inr (q, there) ↦ elim (Bool-cases (q == p)) [
      | inl shared ↦
          let same_cell : q ≡ p = ground arith in
          let names : j ≡ k = s.distinct j k p (rw same_cell at there) here in
          let equal : text_eq j k ≡ true = rw names (text_eq-same k) in
          absurd (ground (arith, other, equal))
      | inr apart ↦ rw other (rw there (rw apart (ground arith)))
    ]
  ]
]

add_one-Turned :
    (k : Text) (p : ℕ) (m : Counters)
    → m.slots k ≡ some p
    → Separate m
    → Turned (adding k p) m (add_one p m) []
unfolding add_one
add_one-Turned k p m here s = record {
  separate = record {
    distinct = s.distinct;
    fresh = s.fresh;
    small = λ q. ground (arith, s.small q);
  };
  same_slots = λ j q h. h;
  held = tt;
  balance = λ j. omega (arith, value-add_one k j p m here s);
}

pub turn-Turned :
    (c : Call) (m : Counters) → Separate m → Holds m c → Turned c m (turn c m).0 (turn c m).1
unfolding turn
turn-Turned (looking k) m s h = elim (Option-cases (m.slots k)) [
  | inl nothing ↦ rw nothing (same_call m (looking k) (missing k) refl s tt)
  | inr (p, there) ↦ rw there (same_call m (looking k) (adding k p) refl s there)
]
turn-Turned (missing k) m s h = elim (Option-cases (m.slots k)) [
  | inl nothing ↦ rw nothing (allocate-Turned k m nothing s)
  | inr (p, there) ↦ rw there (same_call m (missing k) (adding k p) refl s there)
]
turn-Turned (adding k p) m s h = add_one-Turned k p m h s
