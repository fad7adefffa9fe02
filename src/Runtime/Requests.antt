-- ===== src/Runtime/Requests.antt =====
-- The requests that the parachain stores (runtime/src/types.rs names them `InterBtc…Request`).
-- Their types are generated from the parachain's metadata; these are the fields that are read.
-- An id (`H256`), an account, a vault id and a Bitcoin address are numbers.
use interbtc_clients.Prelude.{ℕ, Bool, true, false}

abbrev pub H256 : Type 0
H256 = ℕ

abbrev pub AccountId : Type 0
AccountId = ℕ

abbrev pub VaultId : Type 0
VaultId = ℕ

abbrev pub BtcAddress : Type 0
BtcAddress = ℕ

pub data RequestStatus : Type 0 where
  pending completed cancelled other : RequestStatus

-- `status == …RequestStatus::Pending`
abbrev pub is_pending : RequestStatus → Bool
is_pending RequestStatus.pending = true
is_pending _ = false

pub record IssueRequest : Type 0 where
  pub vault : VaultId
  pub requester : AccountId
  pub opentime : ℕ
  pub btc_height : ℕ
  pub period : ℕ
  pub amount : ℕ
  pub fee : ℕ
  pub btc_address : BtcAddress
  pub btc_public_key : ℕ
  pub status : RequestStatus

pub record RedeemRequest : Type 0 where
  pub vault : VaultId
  pub opentime : ℕ
  pub btc_height : ℕ
  pub period : ℕ
  pub amount_btc : ℕ
  pub transfer_fee_btc : ℕ
  pub btc_address : BtcAddress
  pub status : RequestStatus

pub record ReplaceRequest : Type 0 where
  pub old_vault : VaultId
  pub accept_time : ℕ
  pub btc_height : ℕ
  pub period : ℕ
  pub amount : ℕ
  pub btc_address : BtcAddress
  pub status : RequestStatus
