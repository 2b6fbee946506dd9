-- ===== src/Querier/Queries.antt =====
-- The functions of querier.rs.
use anchor_token_contracts.Base.{ℕ, ◌++◌, String, List, Result, ok, err, ◌>>=◌, min}
use anchor_token_contracts.Cosmwasm.{HumanAddr, Binary, Deps, decimal_one}
use anchor_token_contracts.Querier.Types.{Coin, Chain, Bignumber}

unfoldable pub concat : Binary → Binary → Binary
concat namespace key = namespace ++ key

abbrev pub or_zero : Deps → Result Binary → Binary
or_zero d (ok res) = res
or_zero d (err e) = d.to_binary_uint 0

module _ (d : Deps) where
  -- A failed query counts as a balance of zero.
  unfoldable pub query_token_balance : HumanAddr → HumanAddr → Result ℕ
  query_token_balance contract_addr account_addr = do
    account ← d.canonical_address account_addr
    d.from_binary_uint (
        or_zero d (
          d.query_raw contract_addr (concat (d.to_length_prefixed "balance") (d.as_slice account))))

  module _ (c : Chain) where
    unfoldable pub query_supply : HumanAddr → Result ℕ
    query_supply contract_addr = do
      res ← d.query_raw contract_addr (d.to_length_prefixed "token_info")
      token_info ← c.from_binary_token_info res
      ok token_info.total_supply

module _ (c : Chain) where
  unfoldable pub query_all_balances : HumanAddr → Result (List Coin)
  query_all_balances account_addr = c.all_balances account_addr

  unfoldable pub query_balance : HumanAddr → String → Result ℕ
  query_balance account_addr denom = do balance ← c.balance account_addr denom; ok balance.amount

  unfoldable pub query_tax_rate : Result ℕ
  query_tax_rate = c.tax_rate

  module _ (b : Bignumber) where
    unfoldable pub compute_tax : Coin → Result ℕ
    compute_tax coin = do
      tax_rate ← c.tax_rate
      tax_cap ← c.tax_cap coin.denom
      gross ← b.decimal_add decimal_one tax_rate
      net ← b.decimal_div decimal_one gross
      factor ← b.decimal_sub decimal_one net
      tax ← b.uint_mul coin.amount factor
      ok (min tax tax_cap)

    unfoldable pub deduct_tax : Coin → Result Coin
    deduct_tax coin = do
      tax_amount ← compute_tax coin
      left ← b.uint_sub coin.amount tax_amount
      amount ← b.to_uint128 left
      ok (record { denom = coin.denom; amount = amount })
