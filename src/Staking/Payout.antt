-- ===== src/Staking/Payout.antt =====
-- What `withdraw` pays, against the query for the same height.
use anchor_token_contracts.Base.{◌≡◌, refl, some, ok, arith, [], ◌∷◌, ◌∙◌}
use anchor_token_contracts.Base.Buckets.{may_load-save, may_load-remove}
use anchor_token_contracts.Cosmwasm.{Deps, Env, HandleResponse, HumanAddr, CanonicalAddr, transfer}
use anchor_token_contracts.Staking.Types.{
  Storage, State, StakerInfo, Config, store_state, read_staker_info,
}
use anchor_token_contracts.Staking.Contract.{withdraw, keep_bonded}
use anchor_token_contracts.Staking.Queries.{StakerInfoResponse, query_staker_info, staker_at}
use anchor_token_contracts.Staking.Rewards.{compute_reward, compute_staker_reward}
use anchor_token_contracts.Staking.Effects.{withdraw_effect, compute_staker_reward_bond}

abbrev pub PaysOut : Deps → Storage → Env → Storage → HandleResponse → Type 0
PaysOut d s env s' r =
    (q : StakerInfoResponse) × (query_staker_info d s env.sender (some env.block_height) ≡ ok q)
    × (config : Config) × (s.config ≡ some config)
    × (token : HumanAddr) × (d.human_address config.anchor_token ≡ ok token)
    × (r.messages
        ≡ record { contract_addr = token; msg = transfer env.sender q.pending_reward; coins = [] }
          ∷ [])
    × (key : CanonicalAddr) × (d.canonical_address env.sender ≡ ok key)
    × ((read_staker_info s' key).pending_reward ≡ 0)
    × ((read_staker_info s' key).bond_amount ≡ (read_staker_info s key).bond_amount)

kept :
    (d : Deps) (key : CanonicalAddr) (i : StakerInfo) (state : State) (s : Storage)
    → i.pending_reward ≡ 0
    → ((read_staker_info (store_state state (keep_bonded d key i s)) key).pending_reward ≡ 0)
      × ((read_staker_info (store_state state (keep_bonded d key i s)) key).bond_amount
          ≡ i.bond_amount)
kept d key i state s none_left =
    ground (arith, may_load-save key key i s.stakers, may_load-remove key key s.stakers)

module _ (d : Deps) where
  queried :
      (s : Storage) (env : Env) (key : CanonicalAddr) (config : Config) (state state' : State)
      (info : StakerInfo)
      → d.canonical_address env.sender ≡ ok key
      → s.config ≡ some config
      → s.state ≡ some state
      → compute_reward d config state env.block_height ≡ ok state'
      → compute_staker_reward d state' (read_staker_info s key) ≡ ok info
      → query_staker_info d s env.sender (some env.block_height)
        ≡ ok (record {
          staker = env.sender;
          reward_index = info.reward_index;
          bond_amount = info.bond_amount;
          pending_reward = info.pending_reward;
        })
  unfolding query_staker_info staker_at
  queried s env key config state state' info who conf stored computed rewarded = ground arith

  -- A withdrawal that succeeds sends the sender, in one transfer of the reward token, the pending
  -- reward that `query_staker_info` answers for the height of the withdrawal. It leaves the
  -- sender no pending reward and the bond as it was.
  pub withdraw_pays :
      (s : Storage) (env : Env) {s' : Storage} {r : HandleResponse}
      → withdraw d s env ≡ ok (s', r)
      → PaysOut d s env s' r
  withdraw_pays s env h =
      let (
        key, who, config, conf, state, stored, state', computed, info, rewarded, token, named, sent,
        e,
      ) =
        withdraw_effect d s env h in
      let (spent, bond) = kept d key (record info { pending_reward = 0 }) state' s refl in
      (
        record {
          staker = env.sender;
          reward_index = info.reward_index;
          bond_amount = info.bond_amount;
          pending_reward = info.pending_reward;
        },
        queried s env key config state state' info who conf stored computed rewarded,
        config,
        conf,
        token,
        named,
        sent,
        key,
        who,
        rw e spent,
        rw e (bond ∙ compute_staker_reward_bond d state' (read_staker_info s key) rewarded),
      )
