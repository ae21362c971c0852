-- ===== src/Effect/Ledger.antt =====
-- What a log leaves held. A call acquires a resource, releases one, or neither; the ledger of a
-- log lists the resources held after it, the newest first, and there is none if a resource was
-- released that was not held (a double free, or a free of something never obtained), or used when
-- it was not held (a use after free).
use mathlib.Core.Logic.{ite, if_pos, if_neg}
use mathlib.Core.List.{reverse_aux, append-nil}
use sample_code.Base.{
  ℕ, ◌+◌, ◌<◌, ◌≡◌, ◌≢◌, refl, ap, ◌∙◌, Option, none, some, List, [], ◌∷◌, ◌++◌, reverse, arith,
}

pub data Act (R : Type 0) : Type 0 where
  acquire : R → Act R
  release : R → Act R
  neutral : Act R
  -- A call that uses what has to be held, whatever else it does.
  needs : R → Act R → Act R

abbrev keep {ℓ} : {A : Type ℓ} → A → Option (List A) → Option (List A)
keep x none = none
keep x (some ys) = some (x ∷ ys)

module _ {R : Type 0} (disc : Discrete R) where
  -- The list without the first occurrence of `r`; `none` if there is none.
  pub remove : R → List R → Option (List R)
  remove r [] = none
  remove r (x ∷ xs) = ite (disc r x) (some xs) (keep x (remove r xs))

  unfoldable pub settle : Act R → Option (List R) → Option (List R)
  unfolding remove
  settle a none = none
  settle (acquire r) (some h) = some (r ∷ h)
  settle (release r) (some h) = remove r h
  settle neutral (some h) = some h
  settle (needs r a) (some h) = elim (remove r h) [ none ↦ none | some h' ↦ settle a (some h) ]

  -- Releases one after another, the first of the list first.
  unfoldable pub release_all : List R → Option (List R) → Option (List R)
  unfolding settle
  release_all [] o = o
  release_all (r ∷ rs) o = release_all rs (settle (release r) o)

  -- The ledger of a log, from nothing held.
  module _ {E : Type 0} (act : E → Act R) where
    unfoldable pub ledger : List E → Option (List R)
    unfolding settle
    ledger [] = some []
    ledger (e ∷ l) = settle (act e) (ledger l)

  pub remove_nil : (r : R) → remove r [] ≡ none
  unfolding remove
  remove_nil r = refl

  pub remove_self : (r : R) (h : List R) → remove r (r ∷ h) ≡ some h
  unfolding remove
  remove_self r h = if_pos (disc r r) refl _ _

  pub remove_below : (r s : R) (h : List R) → r ≢ s → remove r (s ∷ r ∷ h) ≡ some (s ∷ h)
  unfolding remove
  remove_below r s h ne = if_neg (disc r s) ne _ _ ∙ ap (keep s) (if_pos (disc r r) refl _ _)

  pub remove_third :
      (r s t : R) (h : List R) → r ≢ s → r ≢ t → remove r (s ∷ t ∷ r ∷ h) ≡ some (s ∷ t ∷ h)
  unfolding remove
  remove_third r s t h ne ne' = if_neg (disc r s) ne _ _ ∙ ap (keep s) (remove_below r t h ne')

  abbrev pub count : R → List R → ℕ
  count r [] = 0
  count r (x ∷ xs) = ite (disc r x) 1 0 + count r xs

  pub count-append : (r : R) (xs ys : List R) → count r (xs ++ ys) ≡ count r xs + count r ys
  count-append r [] ys = omega arith
  count-append r (x ∷ xs) ys = omega (arith, count-append r xs ys)

  -- An item that `ys` holds is removed from `ys`, whatever stands behind.
  pub record Removes (r : R) (ys : List R) : Type 0 where
    pub left : List R
    pub removes : (rest : List R) → remove r (ys ++ rest) ≡ some (left ++ rest)
    pub counts : (a : R) → count a ys ≡ ite (disc a r) 1 0 + count a left

  pub remove_of_count : (r : R) (ys : List R) → 0 < count r ys → Removes r ys
  unfolding remove
  remove_of_count r [] h = absurd (omega arith)
  remove_of_count r (x ∷ ys) h = elim (disc r x) [
    | yes e ↦ record {
      left = ys;
      removes = λ rest. if_pos (disc r x) e _ _;
      counts = λ a. rw e refl;
    }
    | no n ↦
        let cnt : ◌≡◌ {A = ℕ} (ite (disc r x) 1 0) 0 = if_neg (disc r x) n 1 0 in
        let open_h : 0 < count r ys = omega (arith, cnt) in
        let ih : Removes r ys = remove_of_count r ys (omega arith) in
        record {
          left = x ∷ ih.left;
          removes = λ rest. if_neg (disc r x) n _ _ ∙ ap (keep x) (ih.removes rest);
          counts = λ a. omega (arith, ih.counts a);
        }
  ]

  pub count_pos : (r : R) (xs : List R) → 0 < count r (r ∷ xs)
  count_pos r xs = rw (if_pos (disc r r) refl) (omega arith)

  -- The list holds the item.
  pub record Has (r : R) (h : List R) : Type 0 where
    pub counted : 0 < count r h

  pub Has-later : (r x : R) (h : List R) → Has r h → Has r (x ∷ h)
  Has-later r x h p = record { counted = let q = p.counted in ground arith }

  -- A call that uses what is held does what it does besides.
  pub settle-needs :
      (r : R) (a : Act R) (h : List R) → Has r h → settle (needs r a) (some h) ≡ settle a (some h)
  unfolding settle
  settle-needs r a h p =
      let m = remove_of_count r h p.counted in
      rw (rw (append-nil h, append-nil m.left) at (m.removes []), settle) refl

  no_counts-nil : (ys : List R) → ((a : R) → 0 ≡ count a ys) → ys ≡ []
  no_counts-nil [] h = refl
  no_counts-nil (y ∷ ys) h = absurd (omega (arith, h y, count_pos y ys))

  -- Releasing the items of `xs`, in any order of the same items `ys`, leaves what stands below.
  pub release_all-SameItems :
      (xs ys rest : List R)
      → ((a : R) → count a xs ≡ count a ys)
      → release_all xs (some (ys ++ rest)) ≡ some rest
  unfolding release_all settle
  release_all-SameItems [] ys rest h = rw (no_counts-nil ys h) refl
  release_all-SameItems (x ∷ xs) ys rest h =
      let m : Removes x ys = remove_of_count x ys (rw (← h x) (count_pos x xs)) in
      rw (m.removes rest) (release_all-SameItems xs m.left rest λ a. omega (arith, h a, m.counts a))

  count-reverse_aux :
      (a : R) (xs ys : List R) → count a (reverse_aux xs ys) ≡ count a xs + count a ys
  count-reverse_aux a [] ys = omega arith
  count-reverse_aux a (x ∷ xs) ys = omega (arith, count-reverse_aux a xs (x ∷ ys))

  pub count-reverse : (a : R) (xs : List R) → count a (reverse xs) ≡ count a xs
  count-reverse a xs = omega (arith, count-reverse_aux a xs [])
