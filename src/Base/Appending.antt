-- ===== src/Base/Appending.antt =====
-- Scans of a table to which a row is appended that is the only one to pass a test.
use disbursment_api.Base.Tests.{Bool-cases}
use disbursment_api.Base.Lists.{find, count, update_where}
use mathlib.Core.Path.{◌≡◌, refl, ap}
use mathlib.Core.Logic.{inl, inr}
use mathlib.Core.Bool.{Bool, true, false}
use mathlib.Core.List.{List, [], ◌∷◌, ◌++◌}
use mathlib.Core.Option.{none, some}
use native.Mathlib.Omega.{arith}

module _ {A : Type 0} (p : A → Bool) where
  pub find-append_new :
      (xs : List A) (x : A) → find p xs ≡ none → p x ≡ true → find p (xs ++ x ∷ []) ≡ some x
  find-append_new [] x h hx = rw hx refl
  find-append_new (y ∷ xs) x h hx = elim (Bool-cases (p y)) [
    | inl hit ↦ absurd (ground (arith, hit, h))
    | inr miss ↦ rw miss (find-append_new xs x (rw miss at h) hx)
  ]

  module _ (q : A → Bool) (implied : (a : A) → q a ≡ true → p a ≡ true) where
    missed : (y : A) → p y ≡ false → q y ≡ false
    missed y h = elim (Bool-cases (q y)) [
      | inl hit ↦ absurd (ground (arith, implied y hit, h))
      | inr miss ↦ miss
    ]

    pub count-append_new :
        (xs : List A) (x : A) → find p xs ≡ none → q x ≡ true → count q (xs ++ x ∷ []) ≡ 1
    count-append_new [] x h hx = rw hx refl
    count-append_new (y ∷ xs) x h hx = elim (Bool-cases (p y)) [
      | inl hit ↦ absurd (ground (arith, hit, h))
      | inr miss ↦ rw (missed y miss) (count-append_new xs x (rw miss at h) hx)
    ]

    pub update_where-append_new :
        (f : A → A) (xs : List A) (x : A)
        → find p xs ≡ none
        → q x ≡ true
        → update_where q f (xs ++ x ∷ []) ≡ xs ++ f x ∷ []
    update_where-append_new f [] x h hx = rw hx refl
    update_where-append_new f (y ∷ xs) x h hx = elim (Bool-cases (p y)) [
      | inl hit ↦ absurd (ground (arith, hit, h))
      | inr miss ↦ rw (missed y miss) (ap (y ∷◌) (update_where-append_new f xs x (rw miss at h) hx))
    ]
