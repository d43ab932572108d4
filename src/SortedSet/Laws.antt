-- ===== src/SortedSet/Laws.antt =====
-- Laws of the sorted set, for a comparator that is a strict total order.
use cmarket.Prelude.{
  ◌≡◌, refl, ◌⊎◌, Bool, true, false, not, ◌&&◌, ◌||◌, none, some, List, [], ◌∷◌, arith,
  if◌then◌else◌,
}
use cmarket.Prelude.Order.{IsStrictOrder, All, All-map}
use cmarket.SortedSet.{same, contains, insert, erase, extract, first}

module _ {K : Type 0} (before : K → K → Bool) (order : IsStrictOrder before) where
  abbrev pub IsAhead : K → List K → Type 0
  IsAhead k xs = All (λ x. before k x ≡ true) xs

  abbrev pub IsSorted : List K → Type 0
  IsSorted [] = Unit {0}
  IsSorted (x ∷ xs) = IsAhead x xs × IsSorted xs

  pub same-eq : (a b : K) → same before a b ≡ true → a ≡ b
  same-eq a b h = order.tri a b (ground arith) (ground arith)

  pub same_refl : (a : K) → same before a a ≡ true
  same_refl a = rw (order.irrefl a)

  before-same : (a b : K) → before a b ≡ true → same before a b ≡ false
  before-same a b h = rw h

  before-same' : (a b : K) → before a b ≡ true → same before b a ≡ false
  before-same' a b h = ground (arith, h)

  before-asym : (a b : K) → before a b ≡ true → before b a ≡ false
  before-asym a b h = ground (arith, h, order.trans a b a, order.irrefl a)

  IsAhead-trans : (a b : K) (xs : List K) → before a b ≡ true → IsAhead b xs → IsAhead a xs
  IsAhead-trans a b xs h =
      All-map (λ x. before b x ≡ true) (λ x. before a x ≡ true) xs (λ x. order.trans a b x h)

  contains_ahead : (k : K) (xs : List K) → IsAhead k xs → contains before k xs ≡ false
  unfolding contains
  contains_ahead k [] h = refl
  contains_ahead k (x ∷ xs) h = ground (arith, before-same' k x h.0, contains_ahead k xs h.1)

  -- What stands behind an element comes after it.
  contains_behind :
      (k x : K) (xs : List K) → IsAhead x xs → contains before k xs ≡ true → before x k ≡ true
  unfolding contains
  contains_behind k x [] h e = cc
  contains_behind k x (y ∷ xs) h e = ground (arith, order.tri y k, contains_behind k x xs h.1, h.0)

  IsAhead-contains :
      (k x : K) (xs : List K) → IsAhead x xs → before k x ≡ true → contains before k xs ≡ false
  IsAhead-contains k x xs h e = contains_ahead k xs (IsAhead-trans k x xs e h)

  IsAhead-insert :
      (a k : K) (xs : List K) → IsAhead a xs → before a k ≡ true → IsAhead a (insert before k xs).0
  unfolding insert
  IsAhead-insert a k [] h e = (e, tt)
  IsAhead-insert a k (x ∷ xs) h e = ground (arith, IsAhead-insert a k xs h.1 e)

  IsAhead-erase : (a k : K) (xs : List K) → IsAhead a xs → IsAhead a (erase before k xs).0
  unfolding erase
  IsAhead-erase a k [] h = tt
  IsAhead-erase a k (x ∷ xs) h = ground (arith, IsAhead-erase a k xs h.1)

  insert_ahead : (k : K) (xs : List K) → IsAhead k xs → insert before k xs ≡ (k ∷ xs, true)
  unfolding insert
  insert_ahead k [] h = refl
  insert_ahead k (x ∷ xs) h = ground (arith, before-asym k x h.0, h.0)

  -- Membership after an insertion.
  pub contains-insert :
      (k j : K) (xs : List K)
      → contains before j (insert before k xs).0 ≡ (same before k j || contains before j xs)
  unfolding contains insert
  contains-insert k j [] = refl
  contains-insert k j (x ∷ xs) = ground (arith, contains-insert k j xs, order.tri x k)

  pub insert_new :
      (k : K) (xs : List K) → IsSorted xs → (insert before k xs).1 ≡ not (contains before k xs)
  unfolding contains insert
  insert_new k [] h = refl
  insert_new k (x ∷ xs) h = ground (
    arith,
    insert_new k xs h.1,
    order.tri x k,
    before-same x k,
    before-same' k x,
    IsAhead-contains k x xs h.0,
  )

  pub insert-IsSorted : (k : K) (xs : List K) → IsSorted xs → IsSorted (insert before k xs).0
  unfolding insert
  insert-IsSorted k [] h = (tt, tt)
  insert-IsSorted k (x ∷ xs) h =
      ground (arith, insert-IsSorted k xs h.1, IsAhead-insert x k xs h.0, IsAhead-trans k x xs)

  pub erase-insert :
      (k : K) (xs : List K)
      → IsSorted xs
      → contains before k xs ≡ false
      → erase before k (insert before k xs).0 ≡ (xs, true)
  unfolding insert erase contains
  erase-insert k [] h e = ground (arith, order.irrefl k)
  erase-insert k (x ∷ xs) h e = ground (arith, erase-insert k xs h.1, order.irrefl k, order.tri x k)

  pub extract_lem :
      (k : K) (xs : List K)
      → extract before k xs ≡ ((erase before k xs).0, if contains before k xs then some k else none)
  unfolding extract erase contains
  extract_lem k [] = refl
  extract_lem k (x ∷ xs) = ground (arith, extract_lem k xs, order.tri x k)

  pub erase_found : (k : K) (xs : List K) → (erase before k xs).1 ≡ contains before k xs
  unfolding erase contains
  erase_found k [] = refl
  erase_found k (x ∷ xs) = ground (arith, erase_found k xs)

  pub contains-erase :
      (k j : K) (xs : List K)
      → IsSorted xs
      → contains before j (erase before k xs).0 ≡ (not (same before k j) && contains before j xs)
  unfolding contains erase
  contains-erase k j [] h = ground arith
  contains-erase k j (x ∷ xs) h = ground (
    arith,
    contains-erase k j xs h.1,
    order.tri x k,
    order.tri k j,
    order.tri x j,
    contains_ahead x xs h.0,
    order.irrefl x,
  )

  pub erase-IsSorted : (k : K) (xs : List K) → IsSorted xs → IsSorted (erase before k xs).0
  unfolding erase
  erase-IsSorted k [] h = tt
  erase-IsSorted k (x ∷ xs) h = ground (arith, erase-IsSorted k xs h.1, IsAhead-erase x k xs h.0)

  pub insert-erase :
      (k : K) (xs : List K)
      → IsSorted xs
      → contains before k xs ≡ true
      → insert before k (erase before k xs).0 ≡ (xs, true)
  unfolding insert erase contains
  insert-erase k [] h e = cc
  insert-erase k (x ∷ xs) h e = ground (
    arith,
    insert-erase k xs h.1,
    order.tri x k,
    insert_ahead x xs h.0,
    IsAhead-contains k x xs h.0,
    order.irrefl x,
  )

  -- `*begin()` comes before every other element.
  pub first_least :
      (k j : K) (xs : List K)
      → IsSorted xs
      → first before xs ≡ some k
      → contains before j xs ≡ true
      → (k ≡ j) ⊎ (before k j ≡ true)
  unfolding first contains
  first_least k j [] h e m = cc
  first_least k j (x ∷ xs) h e m = ground (arith, order.tri x j, contains_behind j x xs h.0)

  pub first-contains :
      (k : K) (xs : List K) → first before xs ≡ some k → contains before k xs ≡ true
  unfolding first contains
  first-contains k [] e = cc
  first-contains k (x ∷ xs) e = ground (arith, order.irrefl x)

  pub first-none : (k : K) (xs : List K) → first before xs ≡ none → contains before k xs ≡ false
  unfolding first contains
  first-none k [] e = refl
  first-none k (x ∷ xs) e = cc
