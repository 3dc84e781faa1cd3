-- ===== src/Base/Distinct.antt =====
-- Lists without repetitions: how long they can be.
use disbursment_api.Base.Lists.{length}
use Prim.Native.Nat.{suc, ◌+◌, ◌*◌, ◌≤◌}
use mathlib.Core.Path.{◌≡◌, refl, sym, ap, ◌∙◌}
use mathlib.Core.Logic.{◌⊎◌, inl, inr}
use mathlib.Core.List.{List, [], ◌∷◌, ◌++◌, map}
use native.Mathlib.Omega.{arith}

module _ {A : Type 0} where
  abbrev pub In : A → List A → Type 0
  In a [] = ⊥
  In a (x ∷ xs) = (a ≡ x) ⊎ In a xs

  abbrev pub Distinct : List A → Type 0
  Distinct [] = Unit {0}
  Distinct (x ∷ xs) = (¬ (In x xs)) × Distinct xs

  remove : (a : A) (xs : List A) → In a xs → List A
  remove a [] h = absurd h
  remove a (x ∷ xs) (inl e) = xs
  remove a (x ∷ xs) (inr h) = x ∷ remove a xs h

  length-remove : (a : A) (xs : List A) (h : In a xs) → suc (length (remove a xs h)) ≡ length xs
  unfolding remove
  length-remove a [] h = absurd h
  length-remove a (x ∷ xs) (inl e) = refl
  length-remove a (x ∷ xs) (inr h) = ap suc (length-remove a xs h)

  In-remove : (a b : A) (xs : List A) (h : In a xs) → ¬ (b ≡ a) → In b xs → In b (remove a xs h)
  unfolding remove
  In-remove a b [] h differs there = absurd h
  In-remove a b (x ∷ xs) (inl e) differs (inl e') = absurd (differs (e' ∙ sym e))
  In-remove a b (x ∷ xs) (inl e) differs (inr there) = there
  In-remove a b (x ∷ xs) (inr h) differs (inl e') = inl e'
  In-remove a b (x ∷ xs) (inr h) differs (inr there) = inr (In-remove a b xs h differs there)

  In-same : (a x : A) (xs : List A) → a ≡ x → In a xs → In x xs
  In-same a x xs e h = rw (← e) h

  -- A list without repetitions is no longer than a list that has all its elements.
  pub Distinct-length :
      (xs ys : List A) → Distinct xs → ((a : A) → In a xs → In a ys) → length xs ≤ length ys
  Distinct-length [] ys d within = omega arith
  Distinct-length (x ∷ xs) ys (new, d) within =
      let here = within x (inl refl) in
      let rest =
        Distinct-length xs (remove x ys here) d
          (λ a h. In-remove x a ys here (λ e. new (In-same a x xs e h)) (within a (inr h))) in
      omega (arith, rest, length-remove x ys here)

  pub In-append_left : (a : A) (xs ys : List A) → In a xs → In a (xs ++ ys)
  In-append_left a [] ys h = absurd h
  In-append_left a (x ∷ xs) ys (inl e) = inl e
  In-append_left a (x ∷ xs) ys (inr h) = inr (In-append_left a xs ys h)

  pub In-append_right : (a : A) (xs ys : List A) → In a ys → In a (xs ++ ys)
  In-append_right a [] ys h = h
  In-append_right a (x ∷ xs) ys h = inr (In-append_right a xs ys h)

  pub length-append : (xs ys : List A) → length (xs ++ ys) ≡ length xs + length ys
  length-append [] ys = omega arith
  length-append (x ∷ xs) ys = omega (arith, length-append xs ys)

module _ {A B : Type 0} where
  pub In-map : (f : A → B) (a : A) (xs : List A) → In a xs → In (f a) (map f xs)
  In-map f a [] h = absurd h
  In-map f a (x ∷ xs) (inl e) = inl (ap f e)
  In-map f a (x ∷ xs) (inr h) = inr (In-map f a xs h)

  pub length-map : (f : A → B) (xs : List A) → length (map f xs) ≡ length xs
  length-map f [] = refl
  length-map f (x ∷ xs) = ap suc (length-map f xs)

-- All values of a function of two arguments.
module _ {A B C : Type 0} (f : A → B → C) where
  abbrev pub products : List A → List B → List C
  products [] ys = []
  products (x ∷ xs) ys = map (f x) ys ++ products xs ys

  pub In-products :
      (a : A) (b : B) (xs : List A) (ys : List B) → In a xs → In b ys → In (f a b) (products xs ys)
  In-products a b [] ys ha hb = absurd ha
  In-products a b (x ∷ xs) ys (inl e) hb =
      rw e (In-append_left _ (map (f x) ys) (products xs ys) (In-map (f x) b ys hb))
  In-products a b (x ∷ xs) ys (inr h) hb =
      In-append_right _ (map (f x) ys) (products xs ys) (In-products a b xs ys h hb)

  pub length-products :
      (xs : List A) (ys : List B) → length (products xs ys) ≡ length xs * length ys
  length-products [] ys = omega arith
  length-products (x ∷ xs) ys = grind (
    arith,
    length-append (map (f x) ys) (products xs ys),
    length-map (f x) ys,
    length-products xs ys,
  )
