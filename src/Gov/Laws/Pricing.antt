-- ===== src/Gov/Laws/Pricing.antt =====
-- The arithmetic of shares: what a deposit buys and what a withdrawal is worth.
use native.Mathlib.Nat.{div-mul-le_self, div-le_of_le-mul, mul-le-mul_right}
use anchor_token_contracts.Base.{ℕ, ◌+◌, ◌-◌, ◌*◌, ◌/◌, ◌≤◌, ◌<◌, ◌≡◌, ◌≢◌, arith, subst₂, sym}
use anchor_token_contracts.Gov.Laws.Withdrawal.{rounded_down}

price_kept :
    (stake total amount share : ℕ)
    → share * stake ≤ amount * total
    → stake * (total + share) ≤ (stake + amount) * total
price_kept stake total amount share h = omega (arith, h)

paid_parts :
    (out left share rest : ℕ)
    → out * (share + rest) ≤ share * (out + left)
    → (out + left) * rest ≤ left * (share + rest)
paid_parts out left share rest h = omega (arith, h)

pub priced :
    (balance deposit amount set_aside stake total share new : ℕ)
    → set_aside ≡ deposit + amount
    → set_aside ≤ balance
    → stake ≡ balance - set_aside
    → new ≡ total + share
    → share * stake ≤ amount * total
    → (balance - (deposit + amount)) * new ≤ (balance - deposit - 0) * total
priced balance deposit amount set_aside stake total share new aside enough left sum h =
    let before : balance - (deposit + amount) ≡ stake = omega (arith, aside, enough, left) in
    let after : balance - deposit - 0 ≡ stake + amount = omega (arith, aside, enough, left) in
    rw (before, after, sum) (price_kept stake total amount share h)

price_left :
    (stake total out share : ℕ)
    → out ≤ stake
    → share ≤ total
    → out * total ≤ share * stake
    → stake * (total - share) ≤ (stake - out) * total
price_left stake total out share small some_left h =
    let stake_parts : stake ≡ out + (stake - out) = omega (arith, small) in
    let total_parts : total ≡ share + (total - share) = omega (arith, some_left) in
    subst₂ (λ a b. a * (total - share) ≤ (stake - out) * b) (sym stake_parts) (sym total_parts)
      (paid_parts out (stake - out) share (total - share)
        (subst₂ (λ a b. out * b ≤ share * a) stake_parts total_parts h))

pub left_priced :
    (balance deposit stake total share out : ℕ)
    → stake ≡ balance - deposit
    → share ≤ total
    → out ≡ share * stake / total
    → (balance - (deposit + 0)) * (total - share) ≤ (balance - deposit - out) * total
left_priced balance deposit stake total share out left owned value =
    let before : balance - (deposit + 0) ≡ stake = omega (arith, left) in
    let worth : out * total ≤ share * stake = rw value (div-mul-le_self (share * stake) total) in
    let small : out ≤ stake = rw value (div-le_of_le-mul total (mul-le-mul_right stake owned)) in
    rw (before, sym left) (price_left stake total out share small owned worth)

pub worth_bounds :
    (balance deposit stake total share out : ℕ)
    → deposit ≤ balance
    → stake ≡ balance - deposit
    → share ≤ total
    → total ≢ 0
    → out ≡ share * stake / total
    → (out + deposit ≤ balance)
      × (out * total ≤ share * (balance - deposit))
      × (share * (balance - deposit) < (out + 1) * total)
worth_bounds balance deposit stake total share out covered is owned pos value =
    let (low, high) = rounded_down (share * stake) total pos in
    let small : out ≤ stake = rw value (div-le_of_le-mul total (mul-le-mul_right stake owned)) in
    (omega (arith, small, is, covered), rw (sym is, value) low, rw (sym is, value) high)
