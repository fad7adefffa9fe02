-- ===== src/Oracle.antt =====
-- The oracle's currency pairs, its configuration and how it computes a price from its feeds
-- (oracle/src/currency.rs, config.rs and feeds.rs). A currency is its symbol, which is only
-- compared, as a number; prices are floating-point numbers, whose operations are parameters.
pub mod Routes
pub mod Configured
pub mod Wrong
mod Tests
use interbtc_clients.Prelude.{
  ℕ, Bool, not, ◌||◌, Option, none, some, List, [], ◌∷◌, map, ◌==◌, if◌then◌else◌, Result, ok, err,
}

abbrev pub Currency : Type 0
Currency = ℕ

pub record CurrencyPair : Type 0 where
  pub base : Currency
  pub quote : Currency

unfoldable pub contains : CurrencyPair → Currency → Bool
contains p currency = p.base == currency || p.quote == currency

unfoldable pub has_shared : CurrencyPair → CurrencyPair → Bool
unfolding contains
has_shared p q = contains p q.base || contains p q.quote

unfoldable pub invert_pair : CurrencyPair → CurrencyPair
invert_pair p = record { base = p.quote; quote = p.base }

-- `ConfigError`, without the pairs that it names.
pub data ConfigError : Type 0 where
  no_start no_end no_path : ConfigError

-- The pair that the route has to end with, by its first pair.
unfoldable pub end_of : CurrencyPair → List CurrencyPair → Result Currency ConfigError
unfolding contains
end_of pair [] = err no_start
end_of pair (first ∷ rest) =
    if contains first pair.base
    then ok pair.quote
    else if contains first pair.quote
    then ok pair.base
    else err no_start

unfoldable pub last_contains : Currency → List CurrencyPair → Bool
unfolding contains
last_contains end [] = Bool.false
last_contains end (p ∷ []) = contains p end
last_contains end (p ∷ q ∷ rest) = last_contains end (q ∷ rest)

-- `windows(2)`: each pair shares a currency with the next.
unfoldable pub all_shared : List CurrencyPair → Bool
unfolding has_shared
all_shared [] = Bool.true
all_shared (p ∷ []) = Bool.true
all_shared (p ∷ q ∷ rest) = if has_shared p q then all_shared (q ∷ rest) else Bool.false

-- The checks of `PriceConfig::validate` for the route of one feed.
unfoldable pub validate_route : CurrencyPair → List CurrencyPair → Result (Unit {0}) ConfigError
unfolding end_of last_contains all_shared
validate_route pair route = elim (end_of pair route) [
  | err e ↦ err e
  | ok end ↦
      if last_contains end route
      then if all_shared route then ok tt else err no_path
      else err no_end
]

unfoldable pub validate : CurrencyPair → List (List CurrencyPair) → Result (Unit {0}) ConfigError
unfolding validate_route
validate pair [] = ok tt
validate pair (route ∷ routes) = elim (validate_route pair route) [
  | err e ↦ err e
  | ok _ ↦ validate pair routes
]

-- The errors of the feeds (`Error`, oracle/src/error.rs): only that a feed is not configured
-- matters.
pub data FeedError {ℓ} (Name : Type ℓ) : Type ℓ where
  not_configured : Name → FeedError Name
  failed : FeedError Name

-- The prices and their operations, and what the feeds and the median answer.
pub record Prices : Type 1 where
  pub Price : Type 0
  pub mul : Price → Price → Price
  -- `1.0 / self`
  pub invert : Price → Price
  pub median : List Price → Price

module _ (n : Prices) where
  open n use {Price, mul, invert}

  pub record CurrencyPairAndPrice : Type 0 where
    pub pair : CurrencyPair
    pub price : Price

  unfoldable pub invert_price : CurrencyPairAndPrice → CurrencyPairAndPrice
  unfolding invert_pair
  invert_price c = record { pair = invert_pair c.pair; price = invert c.price }

  -- Both are put end to end.
  abbrev pub join : CurrencyPairAndPrice → CurrencyPairAndPrice → CurrencyPairAndPrice
  join left right = record {
    pair = record { base = left.pair.base; quote = right.pair.quote };
    price = mul left.price right.price;
  }

  unfoldable pub reduce : CurrencyPairAndPrice → CurrencyPairAndPrice → CurrencyPairAndPrice
  unfolding invert_price
  reduce c other =
      if c.pair.quote == other.pair.quote
      then join c (invert_price other)
      else if c.pair.base == other.pair.base
      then join (invert_price c) other
      else if c.pair.base == other.pair.quote
      then join (invert_price c) (invert_price other)
      else join c other

  -- `Iterator::reduce`, from the first on.
  unfoldable pub reduce_all :
      CurrencyPairAndPrice → List CurrencyPairAndPrice → CurrencyPairAndPrice
  unfolding reduce
  reduce_all c [] = c
  reduce_all c (other ∷ rest) = reduce_all (reduce c other) rest

  -- The other way round, if it does not begin with the base that was asked for.
  unfoldable pub orient : Currency → CurrencyPairAndPrice → CurrencyPairAndPrice
  unfolding invert_price
  orient base c = if c.pair.base == base then c else invert_price c

  -- The price of one feed, after the prices along its route have come.
  unfoldable pub price_of_route :
      CurrencyPair → List CurrencyPairAndPrice → Option CurrencyPairAndPrice
  unfolding reduce_all orient
  price_of_route pair [] = none
  price_of_route pair (c ∷ rest) = some (orient pair.base (reduce_all c rest))

  -- `collect::<Result<Vec<_>, Error>>()` of the answers to `get_price`
  unfoldable pub collect {ℓ} :
      {E : Type ℓ}
      → (CurrencyPair → Result CurrencyPairAndPrice E)
      → List CurrencyPair
      → Result (List CurrencyPairAndPrice) E
  collect get_price [] = ok []
  collect get_price (p ∷ route) = elim (get_price p) [
    | err e ↦ err e
    | ok c ↦ elim (collect get_price route) [ err e ↦ err e | ok cs ↦ ok (c ∷ cs) ]
  ]

  -- What `get_prices` computes for one feed.
  unfoldable pub feed_price {ℓ} :
      {E : Type ℓ}
      → CurrencyPair
      → (CurrencyPair → Result CurrencyPairAndPrice E)
      → List CurrencyPair
      → Result (Option CurrencyPairAndPrice) E
  unfolding collect price_of_route
  feed_price pair get_price route = elim (collect get_price route) [
    | err e ↦ err e
    | ok cs ↦ ok (price_of_route pair cs)
  ]

  -- The feed of each name, or `NotConfigured`.
  unfoldable pub with_feeds {ℓ ℓ'} :
      {Name : Type ℓ} {Feed : Type ℓ'}
      → (Name → Option Feed)
      → List (Name × List CurrencyPair)
      → Result (List (Feed × List CurrencyPair)) (FeedError Name)
  with_feeds feeds [] = ok []
  with_feeds feeds ((name, route) ∷ rest) = elim (feeds name) [
    | none ↦ err (not_configured name)
    | some feed ↦ elim (with_feeds feeds rest) [
      | err e ↦ err e
      | ok found ↦ ok ((feed, route) ∷ found)
    ]
  ]

  abbrev pub Feed {ℓ} : Type ℓ → Type ℓ
  Feed Name = CurrencyPair → Result CurrencyPairAndPrice (FeedError Name)

  -- The prices of the feeds that answered one; a feed without a route answers none.
  unfoldable pub feed_prices {ℓ} :
      {Name : Type ℓ}
      → CurrencyPair
      → List (Feed Name × List CurrencyPair)
      → Result (List CurrencyPairAndPrice) (FeedError Name)
  unfolding feed_price
  feed_prices pair [] = ok []
  feed_prices pair ((get_price, route) ∷ rest) = elim (feed_price pair get_price route) [
    | err e ↦ err e
    | ok answer ↦ elim (feed_prices pair rest) [
      | err e ↦ err e
      | ok prices ↦ ok (elim answer [ none ↦ prices | some price ↦ price ∷ prices ])
    ]
  ]

  unfoldable pub get_prices {ℓ} :
      {Name : Type ℓ}
      → (Name → Option (Feed Name))
      → CurrencyPair
      → List (Name × List CurrencyPair)
      → Result (List CurrencyPairAndPrice) (FeedError Name)
  unfolding with_feeds feed_prices
  get_prices feeds pair routes = elim (with_feeds feeds routes) [
    | err e ↦ err e
    | ok found ↦ feed_prices pair found
  ]

  -- The value of the configuration, or the median of the feeds' prices.
  unfoldable pub get_value_or_median {ℓ} :
      {Name : Type ℓ}
      → (Name → Option (Feed Name))
      → CurrencyPair
      → Option Price
      → List (Name × List CurrencyPair)
      → Result CurrencyPairAndPrice (FeedError Name)
  unfolding get_prices
  get_value_or_median feeds pair (some value) routes = ok (record { pair = pair; price = value })
  get_value_or_median feeds pair none routes = elim (get_prices feeds pair routes) [
    | err e ↦ err e
    | ok prices ↦ ok (record {
      pair = pair;
      price = n.median (map (λ (c : CurrencyPairAndPrice). c.price) prices);
    })
  ]
