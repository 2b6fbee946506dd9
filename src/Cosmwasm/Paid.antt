-- ===== src/Cosmwasm/Paid.antt =====
-- What the messages of a response transfer.
use anchor_token_contracts.Base.{ℕ, ◌+◌, List, [], ◌∷◌}
use anchor_token_contracts.Cosmwasm.Types.{CosmosMsg, transfer}

-- The tokens a message transfers.
abbrev pub paid_by : CosmosMsg → ℕ
paid_by m = elim m.msg [ transfer to amount ↦ amount | _ ↦ 0 ]

abbrev pub paid_in : List CosmosMsg → ℕ
paid_in [] = 0
paid_in (m ∷ l) = paid_by m + paid_in l
