-- ===== src/Base/Parts.antt =====
-- A predicate on all elements of a list in parts, and how many pass a test in each part.
use disbursment_api.Base.Lists.{count, All, keep, update_where, find}
use disbursment_api.Base.Tests.{Bool-cases, is_some}
use mathlib.Core.Logic.{inl, inr}
use Prim.Native.Nat.{◌+◌}
use mathlib.Core.Path.{◌≡◌}
use mathlib.Core.Bool.{Bool, true, ◌||◌}
use mathlib.Core.List.{List, [], ◌∷◌, ◌++◌, map}
use native.Mathlib.Omega.{arith}

module _ {A : Type 0} where
  pub count-append : (p : A → Bool) (xs ys : List A) → count p (xs ++ ys) ≡ count p xs + count p ys
  count-append p [] ys = omega arith
  count-append p (x ∷ xs) ys = ground (arith, count-append p xs ys)

  module _ (P : A → Type 0) where
    pub All-parts : (xs ys : List A) → All P (xs ++ ys) → All P xs × All P ys
    All-parts [] ys all = (tt, all)
    All-parts (x ∷ xs) ys all = let rest = All-parts xs ys all.1 in ((all.0, rest.0), rest.1)

    pub All-join : (xs ys : List A) → All P xs → All P ys → All P (xs ++ ys)
    All-join [] ys front back = back
    All-join (x ∷ xs) ys front back = (front.0, All-join xs ys front.1 back)

  pub All-map : {P Q : A → Type 0} (xs : List A) → ((x : A) → P x → Q x) → All P xs → All Q xs
  All-map [] f all = tt
  All-map (x ∷ xs) f all = (f x all.0, All-map xs f all.1)

  pub All-mapped :
      {B : Type 0} (P : B → Type 0) (f : A → B) (xs : List A)
      → All (λ x. P (f x)) xs
      → All P (map f xs)
  All-mapped P f [] all = tt
  All-mapped P f (x ∷ xs) all = (all.0, All-mapped P f xs all.1)

  module _ (P : A → Type 0) (p : A → Bool) where
    pub All-update_where :
        (f : A → A) (xs : List A)
        → ((x : A) → P x → p x ≡ true → P (f x))
        → All P xs
        → All P (update_where p f xs)
    All-update_where f [] same all = tt
    All-update_where f (x ∷ xs) same all =
        let rest = All-update_where f xs same all.1 in
        elim (Bool-cases (p x)) [
          | inl hit ↦ (rw hit (same x all.0 hit), rest)
          | inr missed ↦ (rw missed all.0, rest)
        ]

    pub All-keep : (xs : List A) → All P xs → All P (keep p xs)
    All-keep [] all = tt
    All-keep (x ∷ xs) all = elim (Bool-cases (p x)) [
      | inl hit ↦ rw hit (all.0, All-keep xs all.1)
      | inr missed ↦ rw missed (All-keep xs all.1)
    ]

pub is_some-find-append {ℓ} :
    {A : Type ℓ} (p : A → Bool) (xs : List A) (x : A)
    → is_some (find p (xs ++ x ∷ [])) ≡ (is_some (find p xs) || p x)
is_some-find-append p [] x = ground arith
is_some-find-append p (y ∷ xs) x = ground (arith, is_some-find-append p xs x)
