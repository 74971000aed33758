-- ===== src/Exchange/Heap.antt =====
-- heapq, as orderbook.py calls it: the list of a binary heap, with a comparison that may raise. The
-- positions are those of Python's lists.
pub mod Laws
use zlttbots.Prelude.{
  ℕ, zero, suc, ◌+◌, ◌*◌, ◌/◌, ltb, Bool, true, false, Option, none, some, List, [], ◌∷◌, ◌++◌,
  length, get_elem?, Outcome, ok, raised, if◌then◌else◌,
}

module _ {A : Type 0} where
  -- `xs[n] = x`, for a position of the list
  unfoldable pub set_at : ℕ → A → List A → List A
  set_at n x [] = []
  set_at zero x (y ∷ ys) = x ∷ ys
  set_at (suc n) x (y ∷ ys) = y ∷ set_at n x ys

  unfoldable pub swap_with : ℕ → ℕ → Option A → Option A → List A → List A
  unfolding set_at
  swap_with i j (some x) (some y) xs = set_at i y (set_at j x xs)
  swap_with i j _ _ xs = xs

  -- `xs[i], xs[j] = xs[j], xs[i]`
  unfoldable pub swap : ℕ → ℕ → List A → List A
  unfolding swap_with
  swap i j xs = swap_with i j (get_elem? xs i) (get_elem? xs j) xs

  -- the list without its last element
  unfoldable pub without_last : List A → List A
  without_last [] = []
  without_last (x ∷ []) = []
  without_last (x ∷ y ∷ ys) = x ∷ without_last (y ∷ ys)

  unfoldable pub last_of : A → List A → A
  last_of x [] = x
  last_of x (y ∷ ys) = last_of y ys

module _ {A : Type 0} (less : A → A → Outcome Bool) where
  -- `xs[i] < xs[j]`
  unfoldable pub less_at : Option A → Option A → Outcome Bool
  less_at (some x) (some y) = less x y
  less_at _ _ = ok false

  -- `_siftdown` from a position to the root, on fuel
  unfoldable pub sift_down : ℕ → ℕ → List A → Outcome (Unit {0}) × List A
  unfolding less_at swap
  sift_down fuel zero xs = (ok tt, xs)
  sift_down zero (suc n) xs = (ok tt, xs)
  sift_down (suc fuel) (suc n) xs =
      let parent = n / 2 in
      let rest = sift_down fuel parent (swap parent (suc n) xs) in
      elim (less_at (get_elem? xs (suc n)) (get_elem? xs parent)) [
        | raised e ↦ (raised e, xs)
        | ok true ↦ rest
        | ok false ↦ (ok tt, xs)
      ]

  unfoldable pub heappush : A → List A → Outcome (Unit {0}) × List A
  unfolding sift_down
  heappush x xs = sift_down (length xs) (length xs) (xs ++ x ∷ [])

  -- the child that moves up: the right one if there is one and the left one is not less
  unfoldable pub smaller_child : ℕ → List A → Outcome ℕ
  unfolding less_at
  smaller_child pos xs =
      let left = 2 * pos + 1 in
      if ltb (left + 1) (length xs)
      then elim (less_at (get_elem? xs left) (get_elem? xs (left + 1))) [
        | raised e ↦ raised e
        | ok true ↦ ok left
        | ok false ↦ ok (left + 1)
      ]
      else ok left

  -- `_siftup` from a position to a leaf, on fuel, and back by `_siftdown`
  unfoldable pub sift_up : ℕ → ℕ → List A → Outcome (Unit {0}) × List A
  unfolding sift_down smaller_child swap
  sift_up zero pos xs = sift_down (length xs) pos xs
  sift_up (suc fuel) pos xs =
      if ltb (2 * pos + 1) (length xs)
      then elim (smaller_child pos xs) [
        | raised e ↦ (raised e, xs)
        | ok child ↦ sift_up fuel child (swap pos child xs)
      ]
      else sift_down (length xs) pos xs

  -- `heappop`: the heap behind it; the element that is popped is the first one
  unfoldable pub heappop : List A → Outcome (Unit {0}) × List A
  unfolding sift_up without_last last_of
  heappop [] = (ok tt, [])
  heappop (x ∷ []) = (ok tt, [])
  heappop (x ∷ y ∷ ys) = let xs = last_of y ys ∷ without_last (y ∷ ys) in sift_up (length xs) 0 xs
