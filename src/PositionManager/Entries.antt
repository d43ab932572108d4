-- ===== src/PositionManager/Entries.antt =====
-- The entries of include/position_manager.hpp as a map.
use cmarket.Prelude.{ℕ, ◌≡◌, refl, ◌↔◌, true, none, some, List, [], ◌∷◌, arith, if◌then◌else◌}
use cmarket.Position.{Position}
use cmarket.PositionManager.{same_symbol, Entries, find, put}

pub same_symbol_iff : (xs ys : List ℕ) → (same_symbol xs ys ≡ true) ↔ (xs ≡ ys)
unfolding same_symbol
same_symbol_iff [] [] = ground arith
same_symbol_iff [] (y ∷ ys) = ground arith
same_symbol_iff (x ∷ xs) [] = ground arith
same_symbol_iff (x ∷ xs) (y ∷ ys) = ground (arith, same_symbol_iff xs ys)

-- A write changes the entry of its symbol, which has to be there.
pub find-put :
    (symbol other : List ℕ) (p : Position) (es : Entries)
    → find other (put symbol p es) ≡ (
        if same_symbol symbol other
        then elim (find other es) [ none ↦ none | some _ ↦ some p ]
        else find other es)
unfolding find put
find-put symbol other p [] = ground arith
find-put symbol other p ((key, old) ∷ es) = ground (
  arith,
  find-put symbol other p es,
  same_symbol_iff key symbol,
  same_symbol_iff key other,
  same_symbol_iff symbol other,
)

-- Writing what is there changes nothing.
pub put_same :
    (symbol : List ℕ) (p : Position) (es : Entries) → find symbol es ≡ some p → put symbol p es ≡ es
unfolding find put
put_same symbol p [] h = refl
put_same symbol p ((key, old) ∷ es) h = ground (arith, h, put_same symbol p es)
