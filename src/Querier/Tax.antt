-- ===== src/Querier/Tax.antt =====
-- What `deduct_tax` leaves.
use native.Mathlib.Nat.{
  div-mul-le_self, div-add-mod, mod-lt, div-le_of_le-mul, mul-le-mul_left, mul-le-mul_right,
  mul-sub, sub-le, lt_of_mul-lt-mul_right, mul-lt-mul_of_pos_right,
}
use native.Mathlib.Decide.{dec_le}
use anchor_token_contracts.Base.{
  ℕ, ◌+◌, ◌-◌, ◌*◌, ◌/◌, ◌≤◌, ◌<◌, ◌≡◌, ◌≢◌, ◌⊎◌, ok, arith, min, u128_mod, refl, inl, inr,
}
use anchor_token_contracts.Cosmwasm.{decimal_one}
use anchor_token_contracts.Querier.Types.{Coin, Chain, Bignumber, IsBignumber, u256_mod}
use anchor_token_contracts.Querier.Queries.{compute_tax, deduct_tax}

-- The part of an amount that is left when the tax on it is paid, in 10⁻¹⁸, rounded down.
abbrev net_factor : ℕ → ℕ
net_factor rate = decimal_one * decimal_one / (decimal_one + rate)

abbrev full_tax : ℕ → ℕ → ℕ
full_tax amount rate = amount * (decimal_one - net_factor rate) / decimal_one

net_factor_bounds :
    (rate : ℕ)
    → (net_factor rate ≤ decimal_one)
      × (net_factor rate * (decimal_one + rate) ≤ decimal_one * decimal_one)
      × (decimal_one * decimal_one < (net_factor rate + 1) * (decimal_one + rate))
net_factor_bounds rate =
    let x = decimal_one * decimal_one in
    let gross = decimal_one + rate in
    (
      div-le_of_le-mul gross (omega arith),
      div-mul-le_self x gross,
      omega (arith, div-add-mod x gross, mod-lt x {m = gross} (omega arith)),
    )

-- One unit of the tax, `unit` being the number of 10⁻¹⁸ in it.
tax_rounding :
    (unit amount factor : ℕ)
    → unit ≢ 0
    → factor ≤ unit
    → (tax : ℕ) → tax ≡ amount * (unit - factor) / unit
    → (tax ≤ amount)
      × ((amount - tax) * unit < amount * factor + unit)
      × (amount * factor ≤ (amount - tax) * unit)
tax_rounding unit amount factor pos small tax value =
    let taxed = amount * (unit - factor) in
    let down : tax * unit ≤ taxed = rw value (div-mul-le_self taxed unit) in
    let up : taxed < (tax + 1) * unit =
      rw value (omega (arith, div-add-mod taxed unit, mod-lt taxed {m = unit} (omega arith))) in
    let at_most : tax ≤ amount =
      rw value
        (div-le_of_le-mul unit (omega (arith, mul-le-mul_left amount (sub-le unit factor)))) in
    let parts : amount * unit ≡ amount * factor + taxed =
      omega (arith, mul-sub amount unit factor, mul-le-mul_left amount small) in
    let left = mul-sub unit amount tax in
    (at_most, omega (arith, parts, left, up, down), omega (arith, parts, left, up, down))

net_of_tax :
    (unit gross amount factor left : ℕ)
    → unit ≢ 0
    → gross ≢ 0
    → factor * gross ≤ unit * unit
    → left * unit < amount * factor + unit
    → left * gross < amount * unit + gross
net_of_tax unit gross amount factor left pos some h low =
    lt_of_mul-lt-mul_right unit (
      omega
        (arith, mul-lt-mul_of_pos_right {k = gross} low (omega arith), mul-le-mul_left amount h))

kept_of_tax :
    (unit gross amount factor left : ℕ)
    → unit * unit < (factor + 1) * gross
    → amount * factor ≤ left * unit
    → amount * (unit * unit) ≤ left * unit * gross + amount * gross
kept_of_tax unit gross amount factor left h high =
    omega (arith, mul-le-mul_right gross high, mul-le-mul_left amount h)

net_bounds :
    (amount rate cap left : ℕ)
    → left ≡ amount - min (full_tax amount rate) cap
    → (left ≤ amount)
      × (amount ≤ left + cap)
      × ((amount ≡ left + cap)
          ⊎ (left * (decimal_one + rate) < amount * decimal_one + (decimal_one + rate)))
      × (amount * (decimal_one * decimal_one)
          ≤ left * decimal_one * (decimal_one + rate) + amount * (decimal_one + rate))
net_bounds amount rate cap left e =
    let gross = decimal_one + rate in
    let factor = net_factor rate in
    let full = full_tax amount rate in
    let (small, low, high) = net_factor_bounds rate in
    let (at_most, up, down) =
      tax_rounding decimal_one amount factor (omega arith) small full refl in
    let down' : amount * factor ≤ left * decimal_one = omega (arith, down, e) in
    let kept = kept_of_tax decimal_one gross amount factor left high down' in
    elim (dec_le full cap) [
      | yes within ↦
          let same : left ≡ amount - full = omega (arith, e, within) in
          let up' : left * decimal_one < amount * factor + decimal_one = rw same up in
          (
            omega (arith, same),
            omega (arith, same, within),
            inr (
                net_of_tax decimal_one gross amount factor left (omega arith) (omega arith) low
                  up'),
            kept,
          )
      | no above ↦ (
        omega (arith, e),
        omega (arith, e, above, at_most),
        inl (omega (arith, e, above, at_most)),
        kept,
      )
    ]

-- The bounds of what a deduction leaves.
abbrev pub IsNetOfTax : Chain → Coin → Coin → Type 0
IsNetOfTax c coin left =
    (rate : ℕ) × (c.tax_rate ≡ ok rate)
    × (cap : ℕ) × (c.tax_cap coin.denom ≡ ok cap)
    × (left.denom ≡ coin.denom)
    × (left.amount ≤ coin.amount)
    × (coin.amount ≤ left.amount + cap)
    × ((coin.amount ≡ left.amount + cap)
        ⊎ (left.amount * (decimal_one + rate) < coin.amount * decimal_one + (decimal_one + rate)))
    × (coin.amount * (decimal_one * decimal_one)
        ≤ left.amount * decimal_one * (decimal_one + rate) + coin.amount * (decimal_one + rate))

module _ (c : Chain) {b : Bignumber} (laws : IsBignumber b) where
  compute_tax_effect :
      (coin : Coin) {tax : ℕ}
      → compute_tax c b coin ≡ ok tax
      → (rate : ℕ) × (c.tax_rate ≡ ok rate)
        × (cap : ℕ) × (c.tax_cap coin.denom ≡ ok cap)
        × (gross : ℕ) × (b.decimal_add decimal_one rate ≡ ok gross)
        × (net : ℕ) × (b.decimal_div decimal_one gross ≡ ok net)
        × (factor : ℕ) × (b.decimal_sub decimal_one net ≡ ok factor)
        × (full : ℕ) × (b.uint_mul coin.amount factor ≡ ok full)
        × (tax ≡ min full cap)
  unfolding compute_tax
  compute_tax_effect coin h = ground arith

  compute_tax_value :
      (coin : Coin) {tax : ℕ}
      → compute_tax c b coin ≡ ok tax
      → (rate : ℕ) × (c.tax_rate ≡ ok rate)
        × (cap : ℕ) × (c.tax_cap coin.denom ≡ ok cap)
        × (tax ≡ min (full_tax coin.amount rate) cap)
  compute_tax_value coin h =
      let (rate, at_rate, cap, at_cap, gross, added, net, divided, factor, left, full, scaled, e) =
        compute_tax_effect coin h in
      let gross_is : gross ≡ decimal_one + rate = ground (arith, laws.add_cases decimal_one rate) in
      let net_is : net ≡ decimal_one * decimal_one / gross =
        ground (arith, laws.div_cases decimal_one gross) in
      let factor_is : factor ≡ decimal_one - net = ground (arith, laws.sub_cases decimal_one net) in
      let full_is : full ≡ coin.amount * factor / decimal_one =
        ground (arith, laws.mul_cases coin.amount factor) in
      (rate, at_rate, cap, at_cap, rw (e, full_is, factor_is, net_is, gross_is) refl)

  deduct_tax_effect :
      (coin : Coin) {left : Coin}
      → deduct_tax c b coin ≡ ok left
      → (tax : ℕ) × (compute_tax c b coin ≡ ok tax)
        × (rest : ℕ) × (b.uint_sub coin.amount tax ≡ ok rest)
        × (b.to_uint128 rest ≡ ok left.amount)
        × (left.denom ≡ coin.denom)
  unfolding deduct_tax
  deduct_tax_effect coin h = ground arith

  deduct_tax-IsNetOfTax :
      (coin : Coin) {left : Coin} → deduct_tax c b coin ≡ ok left → IsNetOfTax c coin left
  deduct_tax-IsNetOfTax coin {left} h =
      let (tax, computed, rest, subtracted, narrowed, denom) = deduct_tax_effect coin h in
      let (rate, at_rate, cap, at_cap, tax_is) = compute_tax_value coin computed in
      let rest_is : rest ≡ coin.amount - tax =
        ground (arith, laws.uint_sub_cases coin.amount tax) in
      let left_is : left.amount ≡ rest = ground (arith, laws.narrow_cases rest) in
      let whole : left.amount ≡ coin.amount - min (full_tax coin.amount rate) cap =
        rw (left_is, rest_is, tax_is) refl in
      let (no_more, capped, enough, kept) = net_bounds coin.amount rate cap left.amount whole in
      (rate, at_rate, cap, at_cap, denom, no_more, capped, enough, kept)

  compute_tax_returns :
      (coin : Coin) (rate cap : ℕ)
      → c.tax_rate ≡ ok rate
      → c.tax_cap coin.denom ≡ ok cap
      → decimal_one + rate < u256_mod
      → coin.amount < u128_mod
      → compute_tax c b coin ≡ ok (min (full_tax coin.amount rate) cap)
  unfolding compute_tax
  compute_tax_returns coin rate cap at_rate at_cap rate_fits amount_fits =
      let factor = decimal_one - net_factor rate in
      let net_small : net_factor rate ≤ decimal_one = (net_factor_bounds rate).0 in
      let product : coin.amount * factor ≤ coin.amount * decimal_one =
        mul-le-mul_left coin.amount (sub-le decimal_one (net_factor rate)) in
      let add = laws.add_fits decimal_one rate rate_fits in
      let div = laws.div_fits decimal_one (decimal_one + rate) (omega arith) (omega arith) in
      let sub : b.decimal_sub decimal_one (net_factor rate) ≡ ok factor =
        ground (arith, laws.sub_cases decimal_one (net_factor rate), net_small) in
      let mul = laws.mul_fits coin.amount factor (omega (arith, product, amount_fits)) in
      simp (at_rate, at_cap, add, div, sub, mul)

  -- A deduction from an amount of 128 bits succeeds if the tax rate and the cap can be read and
  -- one and the rate fit 256 bits. It leaves the denomination, no more than there was, and takes
  -- no more than the cap. Unless it takes the cap, what it leaves times one and the tax rate is
  -- less than one unit of gross amount above what there was; and it takes no more than the tax, up
  -- to the rounding of the rate in 10⁻¹⁸.
  pub deduct_tax_returns :
      (coin : Coin) (rate cap : ℕ)
      → c.tax_rate ≡ ok rate
      → c.tax_cap coin.denom ≡ ok cap
      → decimal_one + rate < u256_mod
      → coin.amount < u128_mod
      → (left : Coin) × (deduct_tax c b coin ≡ ok left) × IsNetOfTax c coin left
  unfolding deduct_tax
  deduct_tax_returns coin rate cap at_rate at_cap rate_fits amount_fits =
      let tax = min (full_tax coin.amount rate) cap in
      let computed = compute_tax_returns coin rate cap at_rate at_cap rate_fits amount_fits in
      let (all, _, _) =
        tax_rounding decimal_one coin.amount (net_factor rate) (omega arith)
          (net_factor_bounds rate).0 (full_tax coin.amount rate) refl in
      let fits : tax ≤ coin.amount = omega (arith, all) in
      let sub : b.uint_sub coin.amount tax ≡ ok (coin.amount - tax) =
        ground (arith, laws.uint_sub_cases coin.amount tax, fits) in
      let narrow : b.to_uint128 (coin.amount - tax) ≡ ok (coin.amount - tax) =
        ground (arith, laws.narrow_cases (coin.amount - tax), amount_fits) in
      let left : Coin = record { denom = coin.denom; amount = coin.amount - tax } in
      let e : deduct_tax c b coin ≡ ok left = simp (computed, sub, narrow) in
      (left, e, deduct_tax-IsNetOfTax coin e)
