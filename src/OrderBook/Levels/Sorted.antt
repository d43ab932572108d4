-- ===== src/OrderBook/Levels/Sorted.antt =====
-- The levels of one side as a map from prices to quantities, and what the edits at
-- `std::lower_bound` do to it (src/order_book.cpp).
use cmarket.Prelude.{
  ℕ, zero, suc, ◌≡◌, refl, ℤ, pos, ◌<ℤ◌, ◌≤ℤ◌, eqb_ℤ, eqb_ℤ_iff, int64_max, Bool, true, false, List,
  [], ◌∷◌, none, some, set, if◌then◌else◌, arith, Bool-cases, inl, inr,
}
use cmarket.Prelude.Order.{IsStrictOrder, All, All-map}
use cmarket.OrderBook.Levels.{
  PriceLevel, bid_before, ask_before, insert_at, erase_at, lower_bound, level_at,
}

pub bid_before-IsStrictOrder : IsStrictOrder bid_before
unfolding bid_before
bid_before-IsStrictOrder = record {
  irrefl = λ a. ground arith;
  trans = λ a b c p q. ground arith;
  tri = λ a b p q. ground arith;
}

pub ask_before-IsStrictOrder : IsStrictOrder ask_before
unfolding ask_before
ask_before-IsStrictOrder = record {
  irrefl = λ a. ground arith;
  trans = λ a b c p q. ground arith;
  tri = λ a b p q. ground arith;
}

-- The quantity at a price, 0 where it has no level: the map that a side stands for.
unfoldable pub quantity_at : List PriceLevel → ℤ → ℤ
quantity_at [] p = pos 0
quantity_at (x ∷ xs) p = if eqb_ℤ x.price_ticks p then x.quantity else quantity_at xs p

-- A price that can stand in a level, and a quantity: `0 < quantity ≤ INT64_MAX`.
abbrev pub IsLevel : PriceLevel → Type 0
IsLevel x = (pos 0 ≤ℤ x.price_ticks) × (pos 0 <ℤ x.quantity) × (x.quantity ≤ℤ int64_max)

module _ (before : ℤ → ℤ → Bool) (order : IsStrictOrder before) where
  abbrev pub IsAhead : ℤ → List PriceLevel → Type 0
  IsAhead p xs = All (λ y. before p y.price_ticks ≡ true) xs

  -- Strictly sorted by price, best first, with proper levels.
  abbrev pub IsSide : List PriceLevel → Type 0
  IsSide [] = Unit {0}
  IsSide (x ∷ xs) = IsLevel x × IsAhead x.price_ticks xs × IsSide xs

  pub IsAhead-trans :
      (p q : ℤ) (xs : List PriceLevel) → before p q ≡ true → IsAhead q xs → IsAhead p xs
  IsAhead-trans p q xs h =
      All-map (λ y. before q y.price_ticks ≡ true) (λ y. before p y.price_ticks ≡ true) xs
        (λ y. order.trans p q y.price_ticks h)

  before-ne : (p q : ℤ) → before p q ≡ true → eqb_ℤ p q ≡ false
  before-ne p q h = elim (Bool-cases (eqb_ℤ p q)) [
    | inl e ↦ cc (order.irrefl q, (eqb_ℤ_iff p q).0 e)
    | inr e ↦ e
  ]

  pub quantity_at_ahead : (p : ℤ) (xs : List PriceLevel) → IsAhead p xs → quantity_at xs p ≡ pos 0
  unfolding quantity_at
  quantity_at_ahead p [] h = refl
  quantity_at_ahead p (x ∷ xs) h =
      ground (arith, before-ne p x.price_ticks h.0, quantity_at_ahead p xs h.1)

  -- At the lower bound stands the level of the price, if it has one.
  pub level_at-quantity :
      (xs : List PriceLevel) (p : ℤ)
      → IsSide xs
      → quantity_at xs p
        ≡ elim (level_at xs (lower_bound before xs p) p) [ none ↦ pos 0 | some x ↦ x.quantity ]
  unfolding quantity_at level_at lower_bound
  level_at-quantity [] p h = refl
  level_at-quantity (x ∷ xs) p h = elim (Bool-cases (before x.price_ticks p)) [
    | inl e ↦ rw e (ground (arith, before-ne x.price_ticks p e, level_at-quantity xs p h.2))
    | inr e ↦ elim (Bool-cases (before p x.price_ticks)) [
      | inl f ↦
          let nothing : quantity_at xs p ≡ pos 0 =
            quantity_at_ahead p xs (IsAhead-trans p x.price_ticks xs f h.1) in
          rw e (ground arith)
      | inr f ↦ rw e (ground (arith, order.tri x.price_ticks p e f))
    ]
  ]

  -- A level that stands behind another one of that price holds nothing.
  pub quantity_at_there :
      (x : PriceLevel) (r : ℤ) (xs : List PriceLevel)
      → IsSide (x ∷ xs)
      → eqb_ℤ x.price_ticks r ≡ true
      → quantity_at xs r ≡ pos 0
  quantity_at_there x r xs h e =
      let e' : x.price_ticks ≡ r = (eqb_ℤ_iff x.price_ticks r).0 e in
      rw (← e') (quantity_at_ahead x.price_ticks xs h.1)

  pub quantity_at-insert :
      (xs : List PriceLevel) (p q r : ℤ)
      → quantity_at
          (insert_at (lower_bound before xs p) (record { price_ticks = p; quantity = q }) xs)
          r
        ≡ (if eqb_ℤ p r then q else quantity_at xs r)
  unfolding quantity_at insert_at lower_bound
  quantity_at-insert [] p q r = refl
  quantity_at-insert (x ∷ xs) p q r = elim (Bool-cases (before x.price_ticks p)) [
    | inl e ↦ rw e (ground (arith, before-ne x.price_ticks p e, quantity_at-insert xs p q r))
    | inr e ↦ rw e
  ]

  pub quantity_at-set :
      (xs : List PriceLevel) (p r : ℤ) (v l : PriceLevel)
      → eqb_ℤ v.price_ticks p ≡ true
      → level_at xs (lower_bound before xs p) p ≡ some l
      → quantity_at (set xs (lower_bound before xs p) v) r
        ≡ (if eqb_ℤ p r then v.quantity else quantity_at xs r)
  unfolding quantity_at level_at lower_bound
  quantity_at-set [] p r v l hv h = cc
  quantity_at-set (x ∷ xs) p r v l hv h = elim (Bool-cases (before x.price_ticks p)) [
    | inl e ↦ rw e (
        ground (
          arith,
          before-ne x.price_ticks p e,
          quantity_at-set xs p r v l hv (rw (e, level_at) at h),
        ))
    | inr e ↦ rw e (ground (arith, rw (e, level_at) at h))
  ]

  pub quantity_at-erase :
      (xs : List PriceLevel) (p r : ℤ) (l : PriceLevel)
      → IsSide xs
      → level_at xs (lower_bound before xs p) p ≡ some l
      → quantity_at (erase_at (lower_bound before xs p) xs) r
        ≡ (if eqb_ℤ p r then pos 0 else quantity_at xs r)
  unfolding quantity_at level_at lower_bound erase_at
  quantity_at-erase [] p r l hs h = cc
  quantity_at-erase (x ∷ xs) p r l hs h = elim (Bool-cases (before x.price_ticks p)) [
    | inl e ↦ rw e (
        ground (
          arith,
          before-ne x.price_ticks p e,
          quantity_at-erase xs p r l hs.2 (rw (e, level_at) at h),
        ))
    | inr e ↦
        rw e (ground (arith, rw (e, level_at) at h, eqb_ℤ_iff p r, quantity_at_there x r xs hs))
  ]

  pub level_at-some :
      (xs : List PriceLevel) (p : ℤ) (l : PriceLevel)
      → IsSide xs
      → level_at xs (lower_bound before xs p) p ≡ some l
      → IsLevel l × (eqb_ℤ l.price_ticks p ≡ true)
  unfolding level_at lower_bound
  level_at-some [] p l hs h = cc
  level_at-some (x ∷ xs) p l hs h = elim (Bool-cases (before x.price_ticks p)) [
    | inl e ↦ level_at-some xs p l hs.2 (rw (e, level_at) at h)
    | inr e ↦ ground (arith, rw (e, level_at) at h)
  ]

  IsAhead-insert :
      (xs : List PriceLevel) (a p q : ℤ)
      → before a p ≡ true
      → IsAhead a xs
      → IsAhead a
          (insert_at (lower_bound before xs p) (record { price_ticks = p; quantity = q }) xs)
  unfolding insert_at lower_bound
  IsAhead-insert [] a p q h hs = (h, tt)
  IsAhead-insert (x ∷ xs) a p q h hs = elim (Bool-cases (before x.price_ticks p)) [
    | inl e ↦ rw e (hs.0, IsAhead-insert xs a p q h hs.1)
    | inr e ↦ rw e (h, hs)
  ]

  pub insert_at-IsSide :
      (xs : List PriceLevel) (p q : ℤ)
      → IsLevel (record { price_ticks = p; quantity = q })
      → IsSide xs
      → level_at xs (lower_bound before xs p) p ≡ none
      → IsSide (insert_at (lower_bound before xs p) (record { price_ticks = p; quantity = q }) xs)
  unfolding insert_at lower_bound level_at
  insert_at-IsSide [] p q hl hs h = (hl, tt, tt)
  insert_at-IsSide (x ∷ xs) p q hl hs h = elim (Bool-cases (before x.price_ticks p)) [
    | inl e ↦ rw e (
      hs.0,
      IsAhead-insert xs x.price_ticks p q e hs.1,
      insert_at-IsSide xs p q hl hs.2 (rw (e, level_at) at h),
    )
    | inr e ↦ elim (Bool-cases (before p x.price_ticks)) [
      | inl f ↦ rw e (hl, (f, IsAhead-trans p x.price_ticks xs f hs.1), hs)
      | inr f ↦ ground (arith, rw (e, level_at) at h, order.tri x.price_ticks p e f)
    ]
  ]

  IsAhead-set :
      (xs : List PriceLevel) (a : ℤ) (i : ℕ) (v : PriceLevel)
      → before a v.price_ticks ≡ true
      → IsAhead a xs
      → IsAhead a (set xs i v)
  IsAhead-set [] a i v h hs = tt
  IsAhead-set (x ∷ xs) a zero v h hs = (h, hs.1)
  IsAhead-set (x ∷ xs) a (suc i) v h hs = (hs.0, IsAhead-set xs a i v h hs.1)

  pub set-IsSide :
      (xs : List PriceLevel) (p : ℤ) (v l : PriceLevel)
      → IsLevel v
      → v.price_ticks ≡ p
      → IsSide xs
      → level_at xs (lower_bound before xs p) p ≡ some l
      → IsSide (set xs (lower_bound before xs p) v)
  unfolding lower_bound level_at
  set-IsSide [] p v l hv ev hs h = tt
  set-IsSide (x ∷ xs) p v l hv ev hs h = elim (Bool-cases (before x.price_ticks p)) [
    | inl e ↦ rw e (
      hs.0,
      IsAhead-set xs x.price_ticks (lower_bound before xs p) v (rw ev e) hs.1,
      set-IsSide xs p v l hv ev hs.2 (rw (e, level_at) at h),
    )
    | inr e ↦
        let same : x.price_ticks ≡ v.price_ticks = ground (arith, rw (e, level_at) at h) in
        rw e (hv, rw (← same) hs.1, hs.2)
  ]

  IsAhead-erase : (xs : List PriceLevel) (a : ℤ) (i : ℕ) → IsAhead a xs → IsAhead a (erase_at i xs)
  unfolding erase_at
  IsAhead-erase [] a i hs = tt
  IsAhead-erase (x ∷ xs) a zero hs = hs.1
  IsAhead-erase (x ∷ xs) a (suc i) hs = (hs.0, IsAhead-erase xs a i hs.1)

  pub erase_at-IsSide : (xs : List PriceLevel) (i : ℕ) → IsSide xs → IsSide (erase_at i xs)
  unfolding erase_at
  erase_at-IsSide [] i hs = tt
  erase_at-IsSide (x ∷ xs) zero hs = hs.2
  erase_at-IsSide (x ∷ xs) (suc i) hs =
      (hs.0, IsAhead-erase xs x.price_ticks i hs.1, erase_at-IsSide xs i hs.2)
