-- ===== src/SymbolMap.antt =====
-- `std::unordered_map` from symbols, as the analytics use it. A symbol is the list of its bytes; the
-- order of the entries is read by nothing.
use cmarket.Prelude.{ℕ, ◌≡◌, Option, none, some, List, [], ◌∷◌, arith, if◌then◌else◌}
use cmarket.PositionManager.{same_symbol}
use cmarket.PositionManager.Entries.{same_symbol_iff}

module _ {A : Type 0} where
  unfoldable pub find : List ℕ → List (List ℕ × A) → Option A
  find symbol [] = none
  find symbol ((key, a) ∷ entries) = if same_symbol key symbol then some a else find symbol entries

  -- A write through `operator[]`.
  unfoldable pub put : List ℕ → A → List (List ℕ × A) → List (List ℕ × A)
  put symbol a [] = (symbol, a) ∷ []
  put symbol a ((key, old) ∷ entries) =
      if same_symbol key symbol then (key, a) ∷ entries else (key, old) ∷ put symbol a entries

  unfoldable pub erase : List ℕ → List (List ℕ × A) → List (List ℕ × A)
  erase symbol [] = []
  erase symbol ((key, old) ∷ entries) =
      let rest = erase symbol entries in if same_symbol key symbol then rest else (key, old) ∷ rest

  pub find-put :
      (symbol other : List ℕ) (a : A) (es : List (List ℕ × A))
      → find other (put symbol a es) ≡ (if same_symbol symbol other then some a else find other es)
  unfolding find put
  find-put symbol other a [] = ground arith
  find-put symbol other a ((key, old) ∷ es) = ground (
    arith,
    find-put symbol other a es,
    same_symbol_iff key symbol,
    same_symbol_iff key other,
    same_symbol_iff symbol other,
  )

  pub find-erase :
      (symbol other : List ℕ) (es : List (List ℕ × A))
      → find other (erase symbol es) ≡ (if same_symbol symbol other then none else find other es)
  unfolding find erase
  find-erase symbol other [] = ground arith
  find-erase symbol other ((key, old) ∷ es) = ground (
    arith,
    find-erase symbol other es,
    same_symbol_iff key symbol,
    same_symbol_iff key other,
    same_symbol_iff symbol other,
  )
