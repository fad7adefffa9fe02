-- ===== src/Vault/Redeem/Tests.antt =====
-- A redeem event for one of the vaults (vault/src/redeem.rs).
use interbtc_clients.Prelude.{◌≡◌, ◌+◌, refl, false, none, [], ◌∷◌, ok, ◌==◌}
use interbtc_clients.Runtime.Requests.{RedeemRequest, RequestStatus}
use interbtc_clients.Vault.Payment.{Environment}
use interbtc_clients.Vault.Redeem.{on_redeem_request}
use interbtc_clients.Vault.Redeem.Single.{IsRedeemed, on_redeem_request_pays_once}

abbrev request : RedeemRequest
request = record {
  vault = 1;
  opentime = 100;
  btc_height = 10;
  period = 50;
  amount_btc = 1000;
  transfer_fee_btc = 5;
  btc_address = 9;
  status = RequestStatus.pending;
}

abbrev environment : Environment
environment = record {
  active_block_number = ok 120;
  block_count = ok 11;
  bitcoin_fees = ok 2000000000000000000;
  to_address = λ a. ok (a + 100);
  create_and_send = λ _ _ _ _. ok 40;
  inclusion = [];
  execution = λ _ _ _. (record { result = ok tt; next_backoff = false }) ∷ [];
}

not_directed_here :
    on_redeem_request (λ v. v == 1) (λ _. ok request) environment 60000 false 2 5 ≡ none
unfolding on_redeem_request
not_directed_here = refl

on_redeem_request_pays_once_example :
    ((1 == 1) ≡ false
      → on_redeem_request (λ v. v == 1) (λ _. ok request) environment 60000 false 1 5 ≡ none)
    × IsRedeemed
        (λ _. ok request)
        environment
        60000
        false
        5
        (on_redeem_request (λ v. v == 1) (λ _. ok request) environment 60000 false 1 5)
on_redeem_request_pays_once_example =
    on_redeem_request_pays_once (λ _. ok request) environment 60000 false 5 (λ v. v == 1) 1
