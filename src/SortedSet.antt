-- ===== src/SortedSet.antt =====
-- `std::set` with a comparator, as the sources use it (include/order_manager.hpp): the vector of
-- its elements in order. The comparator is a parameter.
pub mod Laws
use cmarket.Prelude.{
  ℕ, zero, suc, ◌+◌, ◌-◌, ◌*◌, ◌/◌, ◌%◌, ◌^◌, ◌≤◌, ◌<◌, ◌≡◌, refl, sym, ap, ap₂, subst, fun_ext,
  ◌∙◌, ◌≢◌, ◌↔◌, ◌⊎◌, inl, inr, Bool, true, false, not, ◌&&◌, ◌||◌, Option, none, some, List, [],
  ◌∷◌, ◌++◌, map, arith, ltb, leb, ◌==◌, if◌then◌else◌, ==_iff, Bool-cases, Option-cases, u64_mod,
  length, get_elem?, set, take, push_back, pop_back, length-push_back, pop_back-push_back,
  length-set, get_elem?-lt, get_elem?-some, get_elem?-set, get_elem?-push_back, length-pop_back,
  get_elem?-pop_back, set_self, pos_part, neg_part, sub_ℕ, ◌+ℤ◌, ◌-ℤ◌, ◌*ℤ◌, neg, ◌/ℤ◌, ◌≤ℤ◌, ◌<ℤ◌,
  ltb_ℤ, leb_ℤ, eqb_ℤ, min_ℤ, int64_max, int64_min, +ℤ_parts, -ℤ_parts, neg_parts, eq_of_parts,
  eqb_ℤ_iff, ℤ, int_laws, throw_if, and_then, Action, pure, throw, gets, lift, ◌>>=◌, ◌>>◌, modify,
  when, rethrow_after, on_throw, Error, Result, pos, negsuc, ok, err, invalid_argument,
  overflow_error, logic_error, runtime_error, out_of_range, undefined_behaviour, out_of_fuel,
}

module _ {K : Type 0} (before : K → K → Bool) where
  -- Neither comes before the other: the set takes them for one.
  abbrev pub same : K → K → Bool
  same a b = not (before a b) && not (before b a)

  unfoldable pub contains : K → List K → Bool
  contains k [] = false
  contains k (x ∷ xs) = same x k || contains k xs

  -- `insert`; the flag says whether the element is new.
  unfoldable pub insert : K → List K → List K × Bool
  insert k [] = (k ∷ [], true)
  insert k (x ∷ xs) =
      let (rest, added) = insert k xs in
      if before x k
      then (x ∷ rest, added)
      else if before k x
      then (k ∷ x ∷ xs, true)
      else (x ∷ xs, false)

  -- `erase` by key; the flag says whether an element was erased.
  unfoldable pub erase : K → List K → List K × Bool
  erase k [] = ([], false)
  erase k (x ∷ xs) =
      let (rest, erased) = erase k xs in if same x k then (xs, true) else (x ∷ rest, erased)

  -- `extract` by key: the node, empty where there is none.
  unfoldable pub extract : K → List K → List K × Option K
  extract k [] = ([], none)
  extract k (x ∷ xs) =
      let (rest, node) = extract k xs in if same x k then (xs, some x) else (x ∷ rest, node)

  -- `*begin()`.
  unfoldable pub first : List K → Option K
  first [] = none
  first (x ∷ xs) = some x
