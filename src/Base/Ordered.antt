-- ===== src/Base/Ordered.antt =====
-- Lists in an order: two arrangements of the same elements are the same, where no two of these come
-- before each other.
use mathlib.Core.Path.{◌≡◌, refl, ap, subst, sym, ◌∙◌}
use mathlib.Core.Logic.{inl, inr, ∥∥₁_elim}
use mathlib.Core.List.{
  Mem, Perm, not-mem-nil, mem-cons_self, mem-cons_of_mem, eq-or-mem_of_mem-cons,
}
use mathlib.Core.List.Perm
use mathlib.Core.Bool.{Bool-set}
use disbursment_api.Base.Parts.{All-map}
use disbursment_api.Base.{Bool, true, List, [], ◌∷◌, All}

module _ {A : Type 0} (before : A → A → Bool) where
  -- Each element comes before all that follow it.
  abbrev pub IsOrdered : List A → Type 0
  IsOrdered [] = Unit
  IsOrdered (x ∷ xs) = All (λ y. before x y ≡ true) xs × IsOrdered xs

  -- No two elements come before each other, unless they are one.
  abbrev pub HasNoTies : List A → Type 0
  HasNoTies xs = All (λ x. All (λ y. before x y ≡ true → before y x ≡ true → x ≡ y) xs) xs

  -- The same, said of members.
  abbrev AreApart : List A → Type 0
  AreApart xs = (x y : A) → Mem x xs → Mem y xs → before x y ≡ true → before y x ≡ true → x ≡ y

  -- The elements of a list, in order.
  pub record IsArranged (xs arranged : List A) : Type 0 where
    pub same_elements : Perm xs arranged
    pub ordered : IsOrdered arranged

  module _ (set : IsSet A) where
    All-Mem :
        (P : A → Type 0)
        → ((x : A) → IsProp (P x))
        → (y : A) (xs : List A) → All P xs
        → Mem y xs
        → P y
    All-Mem P prop y [] all member = absurd (not-mem-nil member)
    All-Mem P prop y (x ∷ xs) all member = ∥∥₁_elim (eq-or-mem_of_mem-cons member) (prop y) (λ c.
        elim c [
          | inl here ↦ subst P (sym here) all.0
          | inr later ↦ All-Mem P prop y xs all.1 later
        ])

    HasNoTies-AreApart : (xs : List A) → HasNoTies xs → AreApart xs
    HasNoTies-AreApart xs apart x y in_x in_y =
        let from_y : All (λ z. before z y ≡ true → before y z ≡ true → z ≡ y) xs =
          All-map xs
            (λ z of_z.
              All-Mem (λ w. before z w ≡ true → before w z ≡ true → z ≡ w) (λ w. hlevel) y xs of_z
                in_y)
            apart in
        All-Mem (λ z. before z y ≡ true → before y z ≡ true → z ≡ y) (λ z. hlevel) x xs from_y in_x

    All-before :
        (x y : A) (xs : List A) → All (λ z. before x z ≡ true) xs → Mem y xs → before x y ≡ true
    All-before x y xs all member =
        All-Mem (λ z. before x z ≡ true) (λ z. Bool-set _ _) y xs all member

    -- The first elements of two arrangements.
    heads :
        (x y : A) (xs ys : List A)
        → Perm (x ∷ xs) (y ∷ ys)
        → IsOrdered (x ∷ xs)
        → IsOrdered (y ∷ ys)
        → AreApart (x ∷ xs)
        → x ≡ y
    heads x y xs ys p ox oy apart =
        let there : Mem y (x ∷ xs) = (Perm.mem_iff p).1 mem-cons_self in
        ∥∥₁_elim (eq-or-mem_of_mem-cons there) (set x y) (λ c. elim c [
          | inl first ↦ sym first
          | inr later ↦
              ∥∥₁_elim (eq-or-mem_of_mem-cons ((Perm.mem_iff p).0 mem-cons_self)) (set x y) (λ d.
                elim d [
                  | inl same ↦ same
                  | inr behind ↦
                      apart x y mem-cons_self there (All-before x y xs ox.0 later)
                        (All-before y x ys oy.0 behind)
                ])
        ])

    IsArranged-unique :
        (xs ys : List A) → Perm xs ys → IsOrdered xs → IsOrdered ys → AreApart xs → xs ≡ ys
    IsArranged-unique [] [] p ox oy apart = refl
    IsArranged-unique [] (y ∷ ys) p ox oy apart =
        absurd (not-mem-nil ((Perm.mem_iff p).1 mem-cons_self))
    IsArranged-unique (x ∷ xs) [] p ox oy apart =
        absurd (not-mem-nil ((Perm.mem_iff p).0 mem-cons_self))
    IsArranged-unique (x ∷ xs) (y ∷ ys) p ox oy apart =
        let first = heads x y xs ys p ox oy apart in
        let rest = Perm.cons_inv (subst (λ z. Perm (x ∷ xs) (z ∷ ys)) (sym first) p) in
        ap (◌∷ xs) first
        ∙ ap (y ∷◌) (
            IsArranged-unique xs ys rest ox.1 oy.1
              (λ a b in_a in_b. apart a b (mem-cons_of_mem x in_a) (mem-cons_of_mem x in_b)))

    pub IsArranged-same :
        (xs ys zs : List A) → HasNoTies xs → IsArranged xs ys → IsArranged xs zs → ys ≡ zs
    IsArranged-same xs ys zs apart a b =
        let back : (x : A) → Mem x ys → Mem x xs = λ x. (Perm.mem_iff a.same_elements).1 in
        let apart_members = HasNoTies-AreApart xs apart in
        IsArranged-unique ys zs (Perm.trans (Perm.symm a.same_elements) b.same_elements) a.ordered
          b.ordered (λ x y in_x in_y. apart_members x y (back x in_x) (back y in_y))
