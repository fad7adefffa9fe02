-- ===== src/Oracle/Routes.antt =====
-- The price of a route that leads from one currency to another (oracle/src/feeds.rs).
use interbtc_clients.Prelude.{
  ◌≡◌, ◌≢◌, refl, ap, ◌∙◌, sym, List, [], ◌∷◌, ◌==◌, if◌then◌else◌, arith, ◌⊎◌, inl, inr, some,
}
use interbtc_clients.Oracle.{
  Currency, CurrencyPair, invert_pair, Prices, CurrencyPairAndPrice, invert_price, reduce,
  reduce_all, orient, price_of_route,
}

-- One of the two is the base of the pair and the other its quote.
abbrev pub IsBetween : CurrencyPair → Currency → Currency → Type 0
IsBetween p a b = ((p.base ≡ a) × (p.quote ≡ b)) ⊎ ((p.base ≡ b) × (p.quote ≡ a))

module _ (n : Prices) where
  abbrev pub Quotes : Type 0
  Quotes = List (CurrencyPairAndPrice n)

  -- The price with this currency as the base, and the currency that it is a price in.
  abbrev pub turned : Currency → CurrencyPairAndPrice n → n.Price
  turned a c = if c.pair.base == a then c.price else n.invert c.price

  abbrev pub other_end : Currency → CurrencyPairAndPrice n → Currency
  other_end a c = if c.pair.base == a then c.pair.quote else c.pair.base

  -- The prices along a route are multiplied from the left.
  abbrev pub product : n.Price → Currency → Quotes → n.Price
  product p a [] = p
  product p a (c ∷ route) = product (n.mul p (turned a c)) (other_end a c) route

  abbrev pub product_of : Currency → CurrencyPairAndPrice n → Quotes → n.Price
  product_of a c route = product (turned a c) (other_end a c) route

  -- A route from one currency to another, each of its pairs between two different currencies, that
  -- does not come back to `start`.
  pub data IsRoute (start : Currency) : Currency → Quotes → Currency → Type 0 where
    arrived : {a : Currency} → IsRoute start a [] a
    through :
        {a z : Currency}
        → (b : Currency) → (c : CurrencyPairAndPrice n) → {route : Quotes} → IsBetween c.pair a b
        → b ≢ start
        → b ≢ a
        → IsRoute start b route z
        → IsRoute start a (c ∷ route) z

  -- The price that a route has for a pair: a route from the quote to the base gives the inverse.
  pub data IsPriced (pair : CurrencyPair) : Quotes → n.Price → Type 0 where
    forwards :
        (c : CurrencyPairAndPrice n) (route : Quotes)
        → IsRoute pair.base pair.base (c ∷ route) pair.quote
        → IsPriced pair (c ∷ route) (product_of pair.base c route)
    backwards :
        (c d : CurrencyPairAndPrice n) (route : Quotes)
        → IsRoute pair.quote pair.quote (c ∷ d ∷ route) pair.base
        → IsPriced pair (c ∷ d ∷ route) (n.invert (product_of pair.quote c (d ∷ route)))

  abbrev quote_of : Currency → Currency → n.Price → CurrencyPairAndPrice n
  quote_of a b p = record { pair = record { base = a; quote = b }; price = p }

  other_end-eq :
      (c : CurrencyPairAndPrice n) (a b : Currency)
      → b ≢ a
      → IsBetween c.pair a b
      → other_end a c ≡ b
  other_end-eq c a b p s = ground arith

  reduce-eq :
      (start a b : Currency) (c d : CurrencyPairAndPrice n)
      → a ≢ start
      → b ≢ start
      → b ≢ a
      → IsBetween c.pair start a
      → IsBetween d.pair a b
      → reduce n c d ≡ quote_of start b (n.mul (turned start c) (turned a d))
  unfolding reduce invert_price invert_pair
  reduce-eq start a b c d p q r s t = ground arith

  extend :
      (start a b : Currency) (p : n.Price) (d : CurrencyPairAndPrice n)
      → a ≢ start
      → b ≢ start
      → b ≢ a
      → IsBetween d.pair a b
      → reduce n (quote_of start a p) d ≡ quote_of start b (n.mul p (turned a d))
  extend start a b p d q r s t =
      reduce-eq start a b (quote_of start a p) d q r s (inl (refl, refl)) t ∙ ground arith

  -- All that comes after a first price is multiplied to it.
  reduce_all-eq :
      (start a z : Currency) (p : n.Price) (route : Quotes)
      → a ≢ start
      → IsRoute start a route z
      → (reduce_all n (quote_of start a p) route ≡ quote_of start z (product p a route))
        × (z ≢ start)
  unfolding reduce_all
  reduce_all-eq start a z p _ q arrived = (refl, q)
  reduce_all-eq start a z p _ q (through b d {route} t r s rest) =
      let (e, f) = reduce_all-eq start b z (n.mul p (turned a d)) route r rest in
      (
        ap (λ c. reduce_all n c route) (extend start a b p d q r s t)
            ∙ e
            ∙ ap (λ x. quote_of start z (product (n.mul p (turned a d)) x route))
                (sym (other_end-eq d a b s t)),
        f,
      )

  -- From two pairs on, the result begins where the route does.
  reduce_all-product_of :
      (start z : Currency) (c d : CurrencyPairAndPrice n) (route : Quotes)
      → IsRoute start start (c ∷ d ∷ route) z
      → (reduce_all n (reduce n c d) route ≡ quote_of start z (product_of start c (d ∷ route)))
        × (z ≢ start)
  reduce_all-product_of start z c d route (through a _ s p _ (through b _ t q r rest)) =
      let (e, f) = reduce_all-eq start b z (n.mul (turned start c) (turned a d)) route q rest in
      (
        ap (λ x. reduce_all n x route) (reduce-eq start a b c d p q r s t)
            ∙ e
            ∙ ap (λ x. quote_of start z (product (n.mul (turned start c) (turned a d)) x route))
                (sym (other_end-eq d a b r t))
            ∙ ap (λ x. quote_of start z (product_of_from x)) (sym (other_end-eq c start a p s)),
        f,
      )
    where
      product_of_from : Currency → n.Price
      product_of_from x = product (n.mul (turned start c) (turned x d)) (other_end x d) route

  orient-eq :
      (start b : Currency) (c : CurrencyPairAndPrice n)
      → b ≢ start
      → IsBetween c.pair start b
      → orient n start c ≡ quote_of start b (turned start c)
  unfolding orient invert_price invert_pair
  orient-eq start b c p s = ground arith

  orient_inverse :
      (start z : Currency) (p : n.Price)
      → z ≢ start
      → orient n start (quote_of z start p) ≡ quote_of start z (n.invert p)
  orient_inverse start z p q =
      orient-eq start z (quote_of z start p) q (inr (refl, refl)) ∙ ground arith

  -- If the pairs of the answered prices lead from the base of a pair to its quote or from the quote
  -- to the base, each between two different currencies and without coming back to where they start,
  -- then the feed answers for the pair itself the product of the prices, multiplied from the left,
  -- each turned into the direction of the route; and if the route leads from the quote to the base,
  -- by more than one pair, the inverse of this product.
  pub price_of_route_lem :
      (pair : CurrencyPair) (answers : Quotes) (price : n.Price)
      → IsPriced pair answers price
      → price_of_route n pair answers ≡ some (record { pair = pair; price = price })
  unfolding price_of_route reduce_all
  price_of_route_lem pair _ _ (forwards c [] (through b _ s p q arrived)) =
      ap some (orient-eq pair.base pair.quote c p s)
  price_of_route_lem pair _ _ (forwards c (d ∷ route) r) =
      let (e, f) = reduce_all-product_of pair.base pair.quote c d route r in
      ap some (
        ap (orient n pair.base) e
        ∙ orient-eq pair.base pair.quote (quote_of pair.base pair.quote _) f (inl (refl, refl))
        ∙ ground arith)
  price_of_route_lem pair _ _ (backwards c d route r) =
      let (e, f) = reduce_all-product_of pair.quote pair.base c d route r in
      ap some (ap (orient n pair.base) e ∙ orient_inverse pair.base pair.quote _ (λ x. f (sym x)))
