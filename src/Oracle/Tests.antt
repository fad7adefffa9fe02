-- ===== src/Oracle/Tests.antt =====
-- Three currencies, whose prices are powers of two, told by their exponents
-- (oracle/src/currency.rs, config.rs and feeds.rs).
use interbtc_clients.Prelude.{
  ℕ, ◌≡◌, refl, List, [], ◌∷◌, ◌==◌, ◌&&◌, if◌then◌else◌, arith, inl, inr, Option, some, none, ok,
  err,
}
use mathlib.Core.Int.{ℤ, pos, negsuc, neg_ℤ, ◌+ℤ◌}
use interbtc_clients.Oracle.{
  Currency, CurrencyPair, invert_pair, Prices, CurrencyPairAndPrice, invert_price, reduce,
  reduce_all, orient, price_of_route, has_shared, contains, validate, validate_route, end_of,
  last_contains, all_shared, collect, feed_price, feed_prices, with_feeds, get_prices,
  get_value_or_median, Feed, no_start, no_end, no_path, not_configured, failed,
}
use interbtc_clients.Oracle.Routes.{
  IsRoute, price_of_route_lem, arrived, through, forwards, backwards,
}
use interbtc_clients.Oracle.Configured.{get_prices-eq-ok, answered, without_route, no_feeds}
use interbtc_clients.Oracle.Wrong.{pair_of, validate_accepts_other_pair}

abbrev powers : Prices
powers = record {
  Price = ℤ;
  mul = ◌+ℤ◌;
  invert = neg_ℤ;
  median = λ prices. elim prices [ [] ↦ pos 0 | p ∷ _ ↦ p ];
}

abbrev quote : Currency → Currency → ℤ → CurrencyPairAndPrice powers
quote a b p = record { pair = pair_of a b; price = p }

-- The route from 2 to 0 is configured as 1/2 and 1/0.
abbrev feed : Feed powers ℕ
feed p =
    if p.base == 1 && p.quote == 2
    then ok (quote 1 2 (negsuc 1))
    else if p.base == 1 && p.quote == 0
    then ok (quote 1 0 (pos 1))
    else err failed

abbrev feeds : ℕ → Option (Feed powers ℕ)
feeds name = if name == 7 then some feed else none

abbrev route : List CurrencyPair
route = pair_of 1 2 ∷ pair_of 1 0 ∷ []

configurations :
    validate (pair_of 2 0) (route ∷ [])
      ∷ validate (pair_of 0 2) (route ∷ [])
      ∷ validate (pair_of 2 0) ([] ∷ [])
      ∷ validate (pair_of 2 3) (route ∷ [])
      ∷ validate (pair_of 2 0) ((pair_of 1 2 ∷ pair_of 3 0 ∷ []) ∷ [])
      ∷ []
    ≡ ok tt ∷ ok tt ∷ err no_start ∷ err no_end ∷ err no_path ∷ []
unfolding validate validate_route end_of last_contains all_shared has_shared contains
configurations = refl

prices :
    get_prices powers feeds (pair_of 2 0) ((7, route) ∷ (7, []) ∷ []) ≡ ok (quote 2 0 (pos 3) ∷ [])
unfolding get_prices with_feeds feed_prices feed_price collect price_of_route reduce_all reduce
    orient invert_price invert_pair
prices = refl

missing :
    get_value_or_median powers feeds (pair_of 2 0) none ((7, route) ∷ (8, route) ∷ [])
    ≡ err (not_configured 8)
unfolding get_value_or_median get_prices with_feeds
missing = refl

fixed :
    get_value_or_median powers feeds (pair_of 2 0) (some (pos 5)) ((8, route) ∷ [])
    ≡ ok (quote 2 0 (pos 5))
unfolding get_value_or_median
fixed = refl

-- From 2 over 1 to 0, where the first pair is turned.
abbrev route-IsRoute : IsRoute powers 2 2 (quote 1 2 (negsuc 1) ∷ quote 1 0 (pos 1) ∷ []) 0
route-IsRoute =
    through 1 (quote 1 2 (negsuc 1)) (inr (refl, refl)) (omega arith) (omega arith)
      (through 0 (quote 1 0 (pos 1)) (inl (refl, refl)) (omega arith) (omega arith) arrived)

price_of_route_lem_example :
    price_of_route powers (pair_of 0 2) (quote 1 2 (negsuc 1) ∷ quote 1 0 (pos 1) ∷ [])
    ≡ some (quote 0 2 (negsuc 2))
price_of_route_lem_example =
    price_of_route_lem powers (pair_of 0 2) (quote 1 2 (negsuc 1) ∷ quote 1 0 (pos 1) ∷ [])
      (negsuc 2) (backwards (quote 1 2 (negsuc 1)) (quote 1 0 (pos 1)) [] route-IsRoute)

get_prices-eq-ok_example :
    get_prices powers feeds (pair_of 2 0) ((7, []) ∷ (7, route) ∷ []) ≡ ok (quote 2 0 (pos 3) ∷ [])
get_prices-eq-ok_example =
    get_prices-eq-ok powers feeds (pair_of 2 0) ((7, []) ∷ (7, route) ∷ []) (quote 2 0 (pos 3) ∷ [])
      (without_route 7 feed refl (
        answered 7 feed route (quote 1 2 (negsuc 1) ∷ quote 1 0 (pos 1) ∷ []) (pos 3) refl
          (unfold collect in refl)
          (forwards (quote 1 2 (negsuc 1)) (quote 1 0 (pos 1) ∷ []) route-IsRoute) no_feeds))

validate_accepts_other_pair_example :
    (validate (pair_of 2 0) ((pair_of 2 1 ∷ pair_of 2 0 ∷ []) ∷ []) ≡ ok tt)
    × (price_of_route powers (pair_of 2 0) (quote 2 1 (pos 2) ∷ quote 2 0 (pos 3) ∷ [])
        ≡ some (quote 0 1 (negsuc 0)))
validate_accepts_other_pair_example =
    validate_accepts_other_pair powers 2 0 1 (pos 2) (pos 3) (omega arith) (omega arith)
