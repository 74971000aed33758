-- ===== src/Exchange/Heap/Laws.antt =====
-- The number of elements of a heap, and the fuel of its loops.
use zlttbots.Prelude.{
  ℕ, zero, suc, ◌+◌, ◌*◌, ◌/◌, ◌≤◌, ◌≡◌, refl, ◌∙◌, ltb, Bool, true, false, Option, none, some,
  List, [], ◌∷◌, length, get_elem?, Outcome, arith, Outcome-cases, Bool-cases, inl, inr, ok, ◌<◌,
}
use zlttbots.Exchange.Heap.{
  set_at, swap_with, swap, without_last, last_of, less_at, sift_down, smaller_child, sift_up,
  heappop,
}

module _ {A : Type 0} where
  length-set_at : (n : ℕ) (x : A) (xs : List A) → length (set_at n x xs) ≡ length xs
  unfolding set_at
  length-set_at n x [] = refl
  length-set_at zero x (y ∷ ys) = refl
  length-set_at (suc n) x (y ∷ ys) = let same = length-set_at n x ys in omega arith

  length-swap_with :
      (i j : ℕ) (x y : Option A) (xs : List A) → length (swap_with i j x y xs) ≡ length xs
  unfolding swap_with
  length-swap_with i j (some x) (some y) xs =
      length-set_at i y (set_at j x xs) ∙ length-set_at j x xs
  length-swap_with i j none y xs = refl
  length-swap_with i j (some x) none xs = refl

  length-swap : (i j : ℕ) (xs : List A) → length (swap i j xs) ≡ length xs
  unfolding swap
  length-swap i j xs = length-swap_with i j (get_elem? xs i) (get_elem? xs j) xs

  length-without_last : (x : A) (xs : List A) → length (without_last (x ∷ xs)) ≡ length xs
  unfolding without_last
  length-without_last x [] = refl
  length-without_last x (y ∷ ys) = let same = length-without_last y ys in omega arith

module _ {A : Type 0} (less : A → A → Outcome Bool) where
  length-sift_down :
      (fuel pos : ℕ) (xs : List A) → length (sift_down less fuel pos xs).1 ≡ length xs
  unfolding sift_down
  length-sift_down fuel zero xs = refl
  length-sift_down zero (suc n) xs = refl
  length-sift_down (suc fuel) (suc n) xs =
      elim (Outcome-cases (less_at less (get_elem? xs (suc n)) (get_elem? xs (n / 2)))) [
        | inr (e, h) ↦ rw (h, sift_down) refl
        | inl (true, h) ↦
            rw (h, sift_down)
              (length-sift_down fuel (n / 2) (swap (n / 2) (suc n) xs)
                ∙ length-swap (n / 2) (suc n) xs)
        | inl (false, h) ↦ rw (h, sift_down) refl
      ]

  length-sift_up : (fuel pos : ℕ) (xs : List A) → length (sift_up less fuel pos xs).1 ≡ length xs
  unfolding sift_up
  length-sift_up zero pos xs = length-sift_down (length xs) pos xs
  length-sift_up (suc fuel) pos xs = elim (Bool-cases (ltb (2 * pos + 1) (length xs))) [
    | inr h ↦ rw h (length-sift_down (length xs) pos xs)
    | inl h ↦ rw h (elim (Outcome-cases (smaller_child less pos xs)) [
      | inr (e, k) ↦ rw k refl
      | inl (child, k) ↦
          rw k (length-sift_up fuel child (swap pos child xs) ∙ length-swap pos child xs)
    ])
  ]

  -- `heappop` takes one element out of the heap, also when it raises.
  pub length-heappop : (x : A) (xs : List A) → length (heappop less (x ∷ xs)).1 ≡ length xs
  unfolding heappop
  length-heappop x [] = refl
  length-heappop x (y ∷ ys) =
      let same = length-without_last y ys in
      length-sift_up (length (last_of y ys ∷ without_last (y ∷ ys))) 0
        (last_of y ys ∷ without_last (y ∷ ys))
      ∙ omega arith

  -- From a position below its fuel, `sift_down` comes to its end: more fuel changes nothing.
  pub sift_down_enough :
      (fuel pos : ℕ) (xs : List A)
      → pos ≤ fuel
      → sift_down less (suc fuel) pos xs ≡ sift_down less fuel pos xs
  unfolding sift_down
  sift_down_enough fuel zero xs h = refl
  sift_down_enough zero (suc n) xs h = absurd (omega arith)
  sift_down_enough (suc fuel) (suc n) xs h =
      elim (Outcome-cases (less_at less (get_elem? xs (suc n)) (get_elem? xs (n / 2)))) [
        | inr (e, k) ↦ rw (k, sift_down) refl
        | inl (true, k) ↦
            rw (k, sift_down)
              (sift_down_enough fuel (n / 2) (swap (n / 2) (suc n) xs) (omega arith))
        | inl (false, k) ↦ rw (k, sift_down) refl
      ]

  child_above : (pos child : ℕ) (xs : List A) → smaller_child less pos xs ≡ ok child → pos < child
  unfolding smaller_child
  child_above pos child xs h = elim (Bool-cases (ltb (2 * pos + 1 + 1) (length xs))) [
    | inr f ↦ ground (arith, f, h)
    | inl f ↦
        elim (Outcome-cases
          (less_at less (get_elem? xs (2 * pos + 1)) (get_elem? xs (2 * pos + 1 + 1)))) [
            | inr (e, k) ↦ ground (arith, f, k, h)
            | inl (true, k) ↦ ground (arith, f, k, h)
            | inl (false, k) ↦ ground (arith, f, k, h)
          ]
  ]

  -- With as much fuel as there are positions behind its own, `sift_up` comes to a leaf: more fuel
  -- changes nothing.
  pub sift_up_enough :
      (fuel pos : ℕ) (xs : List A)
      → length xs ≤ fuel + pos
      → sift_up less (suc fuel) pos xs ≡ sift_up less fuel pos xs
  unfolding sift_up
  sift_up_enough zero pos xs h =
      let leaf : ltb (2 * pos + 1) (length xs) ≡ false = ground arith in rw leaf refl
  sift_up_enough (suc fuel) pos xs h = elim (Bool-cases (ltb (2 * pos + 1) (length xs))) [
    | inr f ↦ rw f refl
    | inl f ↦ rw f (elim (Outcome-cases (smaller_child less pos xs)) [
      | inr (e, k) ↦ rw (k, sift_up) refl
      | inl (child, k) ↦
          let above = child_above pos child xs k in
          let same = length-swap pos child xs in
          rw (k, sift_up) (sift_up_enough fuel child (swap pos child xs) (omega arith))
    ])
  ]
