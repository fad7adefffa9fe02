-- ===== src/Lib.antt =====
-- interbtc-clients: the vault, the relayer, the oracle, the faucet, the runner and the Bitcoin
-- client of a bridge between Bitcoin and a parachain.
--
-- The parts and how they interact. The vault holds bitcoin for the parachain. At its start it
-- looks for requests that it still has to pay and that it may have paid before a restart, then
-- pays what is missing and executes the requests on the parachain with a proof of the payment. It
-- answers redeem and replace requests as their events come, watches for the payments of issue
-- requests and executes these, also for other vaults, after a delay that depends on its place
-- among them, and rescans the chain for payments to its own keys that it has missed. A scheduler
-- cancels issue and replace requests once they have expired; the listeners tell it of new ones.
-- The relayer, which runs in the vault, submits Bitcoin's block headers to the parachain, on
-- which these proofs rest. The light wallet funds the vault's transactions where no full node
-- does. The faucet gives new accounts their first balance. The oracle reads prices along routes
-- of currency pairs, and submits their median. The runner keeps one of these clients running and
-- replaces it by the release that the parachain names.
--
-- Which file models which part:
--   Prelude         shared names, tests on numbers, lists, Rust's `Result` and checked arithmetic
--   Runtime/Errors  runtime/src/error.rs: which errors the clients tell apart
--   Runtime/Requests  the requests of runtime/src/types.rs, as far as their fields are read
--   Runtime/Retry   runtime/src/retry.rs: `notify_retry`, over the list of its attempts
--   Runtime/Addresses  runtime/src/addr.rs: `PartialAddress`
--   Bitcoin/Errors, Bitcoin/Transactions  bitcoin/src/error.rs, and `TransactionExt` of
--                   bitcoin/src/lib.rs
--   Bitcoin/Streams  bitcoin/src/iter.rs: the streams from the best block backwards, and (Forward)
--                   of new blocks
--   Bitcoin/Wallet  bitcoin/src/light/wallet.rs: sizes (Sizes), coins (Coins), `fund_transaction`
--   Vault/Blocks, Vault/Requests  vault/src/execution.rs: conversions of heights and deadlines
--   Vault/Payment   vault/src/execution.rs: `pay_and_execute` with `transfer_btc`,
--                   `wait_for_inclusion` and `execute`
--   Vault/OpenRequests  vault/src/execution.rs: `execute_open_requests`
--   Vault/Cancellation  vault/src/cancellation.rs: `handle_cancellation`
--   Vault/IssueSet  vault/src/types.rs: `ReversibleHashMap`, the watched issue requests
--   Vault/Issue     vault/src/issue.rs: `process_transaction_and_execute_issue`,
--                   `initialize_issue_set` and the listeners
--   Vault/Rescan    vault/src/issue.rs: `RescanStatus`, `add_keys_from_past_issue_request`
--   Vault/Redeem, Vault/Replace  vault/src/redeem.rs and vault/src/replace.rs: the listeners
--   Vault/VaultIds  vault/src/system.rs: `VaultIdManager`, the vault ids that are served
--   Vault/Delay     vault/src/delay.rs: `OrderedVaultsDelay`
--   Vault/Relay     vault/src/relay/mod.rs: `compute_start_height`, `submit_next`, `run_relayer`
--   Faucet          faucet/src/http.rs: `fund_account`
--   Oracle          oracle/src/currency.rs, config.rs and feeds.rs: currency pairs, the validation of
--                   the configuration, `get_prices`, `get_value_or_median`
--   Runner          runner/src/runner.rs: `Runner` with its files and processes; ClientTypes has
--                   `ClientType`
-- A function has the name that it has in the source. A block of a long function has a name of its
-- own, and the function is composed of these blocks.
--
-- Other systems (the parachain, Bitcoin Core, Electrs, the clock, the key-value store) and other
-- crates are parameters: records of the answers that they give while one event, request or round is
-- handled. What a component makes them do is recorded: effects of a payment, actions of the
-- start-up, submissions of the relayer, transfers of the faucet, cancellations of the scheduler,
-- chunks of a rescan, executions of issue requests, calls to accept a replace request. The files and
-- the processes of the runner are part of its state, so that what it leaves behind can be stated.
-- Events and repeated answers are explicit lists, so a list stands for an order in which they come.
--
-- Numbers are natural numbers with the source's bounds written out: `checked_add` in 32 bits,
-- `saturating_add`, the cast to 64 bits, and the wrap-around of 64-bit sums in the wallet. Most
-- loops recurse on a list or a height. The forward pass of `compute_start_height` has fuel, and
-- the theorem on it says how much is enough; so has the loop over the chunks of a rescan, for
-- which one round a block and one more are enough; the logarithm of a delay has the number itself
-- as fuel; the loop of `drain_expired` has the length of the list as fuel, and the theorem on it
-- says that this is enough. A stream of blocks is observed for a number of items.
--
-- Not modelled: the clients of the nodes themselves (bitcoin/src/lib.rs, bitcoin/src/electrs,
-- runtime/src/rpc.rs), whose answers are the parameters; HTTP servers, metrics, logging and the
-- process lock, which are input and output; the signatures of the light wallet; the oracle's
-- floating-point numbers and its feeds; the start of the vault's tasks and its registration
-- (vault/src/system.rs); a signal that reaches the runner within a round.
pub mod Prelude
pub mod Runtime
pub mod Bitcoin
pub mod Vault
pub mod Faucet
pub mod Runner
pub mod Oracle
