-- ===== src/Gov/Settings.antt =====
-- contracts/gov/src/contract.rs: `init`, `register_contracts`, `update_config` and the validators
-- of texts and of ratios. A text's length is its number of bytes.
use Prim.Native.String.{len}
use anchor_token_contracts.Base.{
  ℕ, String, Option, none, some, Result, ok, err, generic_err, unauthorized, ◌>>=◌, ◌>>◌, fail_if,
  ltb, ◌!=◌, if◌then◌else◌, [], unwrap_or, update_with,
}
use anchor_token_contracts.Cosmwasm.{HumanAddr, Deps, Env, HandleResponse, no_address, decimal_one}
use anchor_token_contracts.Gov.Types.{Storage, read_config}

abbrev pub no_response : HandleResponse
no_response = record { messages = []; log = [] }

pub record InitMsg : Type 0 where
  pub quorum : ℕ
  pub threshold : ℕ
  pub voting_period : ℕ
  pub timelock_period : ℕ
  pub expiration_period : ℕ
  pub proposal_deposit : ℕ
  pub snapshot_period : ℕ

-- The fields of `HandleMsg::UpdateConfig`.
pub record ConfigUpdate : Type 0 where
  pub owner : Option HumanAddr
  pub quorum : Option ℕ
  pub threshold : Option ℕ
  pub voting_period : Option ℕ
  pub timelock_period : Option ℕ
  pub expiration_period : Option ℕ
  pub proposal_deposit : Option ℕ
  pub snapshot_period : Option ℕ

unfoldable pub validate_title : String → Result (Unit {0})
validate_title title =
    if ltb (len title) 4
    then err (generic_err "Title too short")
    else fail_if (ltb 64 (len title)) (generic_err "Title too long")

unfoldable pub validate_description : String → Result (Unit {0})
validate_description description =
    if ltb (len description) 4
    then err (generic_err "Description too short")
    else fail_if (ltb 1024 (len description)) (generic_err "Description too long")

unfoldable pub validate_link : Option String → Result (Unit {0})
validate_link none = ok tt
validate_link (some link) =
    if ltb (len link) 12
    then err (generic_err "Link too short")
    else fail_if (ltb 128 (len link)) (generic_err "Link too long")

unfoldable pub validate_quorum : ℕ → Result (Unit {0})
validate_quorum quorum = fail_if (ltb decimal_one quorum) (generic_err "quorum must be 0 to 1")

unfoldable pub validate_threshold : ℕ → Result (Unit {0})
validate_threshold threshold =
    fail_if (ltb decimal_one threshold) (generic_err "threshold must be 0 to 1")

module _ (d : Deps) where
  unfoldable pub init : Env → InitMsg → Result Storage
  unfolding validate_quorum validate_threshold
  init env msg = do
    validate_quorum msg.quorum
    validate_threshold msg.threshold
    owner ← d.canonical_address env.sender
    contract_addr ← d.canonical_address env.contract_address
    ok (record {
      config = some (record {
        owner = owner;
        anchor_token = no_address;
        quorum = msg.quorum;
        threshold = msg.threshold;
        voting_period = msg.voting_period;
        timelock_period = msg.timelock_period;
        expiration_period = msg.expiration_period;
        proposal_deposit = msg.proposal_deposit;
        snapshot_period = msg.snapshot_period;
      });
      state = some (record {
        contract_addr = contract_addr;
        poll_count = 0;
        total_share = 0;
        total_deposit = 0;
      });
      polls = [];
      poll_indexer = λ _. [];
      poll_voters = λ _. [];
      bank = [];
    })

  unfoldable pub register_contracts : Storage → HumanAddr → Result (Storage × HandleResponse)
  register_contracts s anchor_token = do
    config ← read_config s
    fail_if (config.anchor_token != no_address) unauthorized
    token ← d.canonical_address anchor_token
    ok (record s { config = some (record config { anchor_token = token }) }, no_response)

  unfoldable pub update_config : Storage → Env → ConfigUpdate → Result (Storage × HandleResponse)
  update_config s env m = do
    config ← read_config s
    sender ← d.canonical_address env.sender
    fail_if (config.owner != sender) unauthorized
    owner ← update_with d.canonical_address m.owner config.owner
    ok (
      record s {
        config = some (record {
          owner = owner;
          anchor_token = config.anchor_token;
          quorum = unwrap_or m.quorum config.quorum;
          threshold = unwrap_or m.threshold config.threshold;
          voting_period = unwrap_or m.voting_period config.voting_period;
          timelock_period = unwrap_or m.timelock_period config.timelock_period;
          expiration_period = unwrap_or m.expiration_period config.expiration_period;
          proposal_deposit = unwrap_or m.proposal_deposit config.proposal_deposit;
          snapshot_period = unwrap_or m.snapshot_period config.snapshot_period;
        });
      },
      no_response,
    )
