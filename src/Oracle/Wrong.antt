-- ===== src/Oracle/Wrong.antt =====
-- A route that the configuration's check accepts and whose price is another pair's
-- (oracle/src/config.rs and feeds.rs).
use interbtc_clients.Prelude.{◌≡◌, ◌≢◌, [], ◌∷◌, arith, some, ok}
use interbtc_clients.Oracle.{
  Currency, CurrencyPair, invert_pair, Prices, invert_price, reduce, reduce_all, orient,
  price_of_route, has_shared, contains, validate, validate_route, end_of, last_contains, all_shared,
}

abbrev pub pair_of : Currency → Currency → CurrencyPair
pair_of a b = record { base = a; quote = b }

accepted :
    (a b x : Currency) → validate (pair_of a b) ((pair_of a x ∷ pair_of a b ∷ []) ∷ []) ≡ ok tt
unfolding validate validate_route end_of last_contains all_shared has_shared contains
accepted a b x = ground arith

reduced :
    (n : Prices) (a b x : Currency) (p q : n.Price)
    → a ≢ x
    → b ≢ x
    → price_of_route n
        (pair_of a b)
        (record { pair = pair_of a x; price = p } ∷ record { pair = pair_of a b; price = q } ∷ [])
      ≡ some (record { pair = pair_of b x; price = n.invert (n.mul (n.invert p) q) })
unfolding price_of_route reduce_all reduce orient invert_price invert_pair
reduced n a b x p q e f = ground arith

-- The route of A/X and A/B, for a currency X other than A and B, is accepted as a route for A/B;
-- but the feed then answers the price of B/X, put together from the two, as the price of A/B.
pub validate_accepts_other_pair :
    (n : Prices) (a b x : Currency) (p q : n.Price)
    → a ≢ x
    → b ≢ x
    → (validate (pair_of a b) ((pair_of a x ∷ pair_of a b ∷ []) ∷ []) ≡ ok tt)
      × (price_of_route n (pair_of a b) (
            record { pair = pair_of a x; price = p }
            ∷ record { pair = pair_of a b; price = q }
            ∷ [])
          ≡ some (record { pair = pair_of b x; price = n.invert (n.mul (n.invert p) q) }))
validate_accepts_other_pair n a b x p q e f = (accepted a b x, reduced n a b x p q e f)
