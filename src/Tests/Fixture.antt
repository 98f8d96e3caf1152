-- ===== src/Tests/Fixture.antt =====
-- A toy cryptography and a small exchange: the accounts 3 (fees), 5 (buyer) and 7 (seller), the
-- assets 1 (base, scale 10) and 2 (quote), and the market 4.
use zk_clob.Prelude.{ℕ, ◌+◌, ◌*◌, ◌%◌, ◌^◌, true, List, [], ◌∷◌, some}
use zk_clob.Types.Ids.{B256}
use zk_clob.Types.Account.{AssetBalance, Account}
use zk_clob.Types.Operations.{Signature, Deposit, ForcedWithdrawal, SignedWithdrawal}
use zk_clob.Types.Order.{Side, SequencedOrder}
use zk_clob.Types.Config.{AssetConfig, MarketConfig, ExchangeConfig}
use zk_clob.Settlement.Matching.{ValidatedMarketBook}
use zk_clob.Types.Batch.{StateWitness, MarketOrderBook, BatchInput}
use zk_clob.Types.Errors.{Result, ok, err, panic}
use zk_clob.Hashing.{Crypto}
use zk_clob.State.{witness_root}

abbrev pub toy_hash : ℕ → List ℕ → B256
toy_hash acc [] = acc
toy_hash acc (b ∷ bs) = toy_hash ((acc * 257 + b + 1) % 2 ^ 256) bs

abbrev pub head_or_zero : List ℕ → ℕ
head_or_zero [] = 0
head_or_zero (x ∷ xs) = x

-- The signature's `r` is the signer.
abbrev pub toy_crypto : Crypto
toy_crypto = record {
  sha256 = toy_hash 7;
  keccak256 = head_or_zero;
  from_compact = λ r s i. true;
  is_low_s = λ r s. true;
  recover_ecdsa = λ d r s i. some (4 ∷ r ∷ []);
}

abbrev pub holding : ℕ → ℕ → AssetBalance
holding asset available = record { asset = asset; available = available }

abbrev pub account : ℕ → List AssetBalance → ℕ → Account
account id balances next_nonce = record { id = id; balances = balances; next_nonce = next_nonce }

abbrev pub config : ExchangeConfig
config = record {
  assets = record { id = 1; scale = 10 } ∷ record { id = 2; scale = 100 } ∷ [];
  markets = record { id = 4; base_asset = 1; quote_asset = 2 } ∷ [];
  fees = record { recipient = 3; buyer_fee_bps = 100 };
}

abbrev pub signed_by : ℕ → Signature
signed_by id = record { r = id; s = 0; recovery_id = 0 }

abbrev pub order : (signer index : ℕ) → Side → (price quantity nonce sequence : ℕ) → SequencedOrder
order signer index side price quantity nonce sequence = record {
  signed_order = record {
    operation = record {
      market_id = 4;
      side = side;
      price = price;
      quantity = quantity;
      nonce = nonce;
    };
    signer = signer;
    signature = signed_by signer;
    account_index = some index;
  };
  sequence = sequence;
}

abbrev pub withdrawal : (signer index asset amount nonce : ℕ) → SignedWithdrawal
withdrawal signer index asset amount nonce = record {
  operation = record { asset = asset; amount = amount; recipient = signer; nonce = nonce };
  signer = signer;
  signature = signed_by signer;
  account_index = some index;
}

abbrev pub deposit : (id account index asset amount : ℕ) → Deposit
deposit id account index asset amount = record {
  id = id;
  account = account;
  asset = asset;
  amount = amount;
  account_index = some index;
}

abbrev pub request : (id account index asset amount : ℕ) → ForcedWithdrawal
request id account index asset amount = record {
  id = id;
  account = account;
  asset = asset;
  amount = amount;
  account_index = some index;
}

abbrev pub accounts : List Account
accounts =
    account 3 [] 0
    ∷ account 5 (holding 2 10_000 ∷ []) 0
    ∷ account 7 (holding 1 50 ∷ holding 2 5 ∷ []) 2
    ∷ []

abbrev pub witness : StateWitness
witness = record {
  accounts = accounts;
  multiproof = record { leaf_keys = 3 ∷ 5 ∷ 7 ∷ []; side_nodes = [] };
}

abbrev pub root_or_zero : Result B256 → B256
root_or_zero (ok r) = r
root_or_zero (err e) = 0
root_or_zero panic = 0

pub witness_root_of_accounts : B256
unfolding witness_root
witness_root_of_accounts = root_or_zero (witness_root toy_crypto witness)

abbrev pub orders : List SequencedOrder
orders =
    order 5 1 Side.buy 30 40 0 1
    ∷ order 7 2 Side.sell 20 25 2 2
    ∷ order 7 2 Side.sell 25 10 3 3
    ∷ order 7 2 Side.sell 31 10 4 4
    ∷ []

abbrev pub books : List MarketOrderBook
books = record { market_id = 4; buy_indices = 0 ∷ []; sell_indices = 1 ∷ 2 ∷ 3 ∷ [] } ∷ []

abbrev pub batch : BatchInput
batch = record {
  domain = record { protocol_version = 1; chain_id = 1; exchange_id = 9 };
  batch_id = 6;
  expected_old_state_root = 0;
  state = witness;
  old_deposit_cursor = 11;
  deposits = deposit 11 5 1 2 200 ∷ deposit 12 5 1 1 1 ∷ [];
  old_forced_withdrawal_cursor = 20;
  forced_withdrawals = request 20 7 2 2 9 ∷ request 21 8 3 2 9 ∷ [];
  orders = orders;
  withdrawals = withdrawal 5 1 2 100 1 ∷ [];
  order_books = books;
  config = config;
}

-- The batch under the root of its witness.
abbrev pub live_batch : BatchInput
live_batch = record batch { expected_old_state_root = witness_root_of_accounts }

abbrev pub buys : List SequencedOrder
buys = order 5 1 Side.buy 30 40 0 1 ∷ []

abbrev pub sells : List SequencedOrder
sells =
    order 7 2 Side.sell 20 25 2 2
    ∷ order 7 2 Side.sell 25 10 3 3
    ∷ order 7 2 Side.sell 31 10 4 4
    ∷ []

abbrev pub market : MarketConfig
market = record { id = 4; base_asset = 1; quote_asset = 2 }

abbrev pub base_asset : AssetConfig
base_asset = record { id = 1; scale = 10 }

abbrev pub matched_book : ValidatedMarketBook
matched_book = record { market = market; base_asset = base_asset; buys = buys; sells = sells }
