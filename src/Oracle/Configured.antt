-- ===== src/Oracle/Configured.antt =====
-- What the feeds of a configuration answer (oracle/src/feeds.rs).
use interbtc_clients.Prelude.{◌≡◌, refl, ap, List, [], ◌∷◌, Option, some, none, ok}
use interbtc_clients.Oracle.{
  CurrencyPair, Prices, CurrencyPairAndPrice, price_of_route, collect, Feed, feed_price,
  feed_prices, with_feeds, get_prices,
}
use interbtc_clients.Oracle.Routes.{IsPriced, price_of_route_lem}

module _ {ℓ} (n : Prices) {Name : Type ℓ} (feeds : Name → Option (Feed n Name))
    (pair : CurrencyPair) where
  abbrev pub Routes : Type ℓ
  Routes = List (Name × List CurrencyPair)

  -- Every feed is configured and answers all the prices of its route, which have a price for the
  -- pair; a feed without a route has none.
  pub data IsAnswered : Routes → List (CurrencyPairAndPrice n) → Type ℓ where
    no_feeds : IsAnswered [] []
    without_route :
        (name : Name) (feed : Feed n Name)
        → {rest : Routes} → {prices : List (CurrencyPairAndPrice n)} → feeds name ≡ some feed
        → IsAnswered rest prices
        → IsAnswered ((name, []) ∷ rest) prices
    answered :
        (name : Name) (feed : Feed n Name) (route : List CurrencyPair)
        → (answers : List (CurrencyPairAndPrice n)) → (price : n.Price) → {rest : Routes}
        → {prices : List (CurrencyPairAndPrice n)} → feeds name ≡ some feed
        → collect n feed route ≡ ok answers
        → IsPriced n pair answers price
        → IsAnswered rest prices
        → IsAnswered ((name, route) ∷ rest) (record { pair = pair; price = price } ∷ prices)

  found_prices :
      (routes : Routes) (prices : List (CurrencyPairAndPrice n))
      → IsAnswered routes prices
      → (found : List (Feed n Name × List CurrencyPair)) × (with_feeds n feeds routes ≡ ok found)
        × (feed_prices n pair found ≡ ok prices)
  unfolding with_feeds feed_prices feed_price collect
  found_prices _ _ no_feeds = ([], refl, refl)
  found_prices _ _ (without_route name feed {rest} {prices} h a) =
      let (found, e, f) = found_prices rest prices a in
      (
        (feed, []) ∷ found,
        rw (with_feeds, h, e) refl,
        rw (feed_prices, feed_price, collect, price_of_route, f) refl,
      )
  found_prices _ _ (answered name feed route answers price {rest} {prices} h k r a) =
      let (found, e, f) = found_prices rest prices a in
      (
        (feed, route) ∷ found,
        rw (with_feeds, h, e) refl,
        rw (feed_prices, feed_price, k, f)
            (ap (λ answer. ok (elim answer [ none ↦ prices | some price' ↦ price' ∷ prices ]))
              (price_of_route_lem n pair answers price r)),
      )

  -- If every feed of the configuration is configured and answers the prices of its route, and each
  -- route leads between the currencies of the pair, each of its pairs between two different
  -- currencies and without coming back to where it starts, then the prices are those of the pair
  -- that the routes give, in the order of the feeds: the products of the answered prices in the
  -- direction of the route, inverted for a route of more than one pair from the quote to the base;
  -- feeds without a route are left out.
  pub get_prices-eq-ok :
      (routes : Routes) (prices : List (CurrencyPairAndPrice n))
      → IsAnswered routes prices
      → get_prices n feeds pair routes ≡ ok prices
  unfolding get_prices
  get_prices-eq-ok routes prices a =
      let (found, e, f) = found_prices routes prices a in rw (get_prices, e) f
