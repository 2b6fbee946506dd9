-- ===== src/Staking/Settlement.antt =====
-- What `bond`, `unbond` and `withdraw` have in common.
use anchor_token_contracts.Base.{
  ℕ, ◌+◌, ◌≡◌, refl, Option, none, some, Result, ok, err, arith, Bool, true, false, ◌==◌, ◌&&◌,
  if◌then◌else◌, ◌∙◌,
}
use anchor_token_contracts.Cosmwasm.{Deps, Env, HandleResponse, HumanAddr, CanonicalAddr, paid_in}
use anchor_token_contracts.Staking.Types.{
  Storage, State, StakerInfo, Config, store_state, read_staker_info, store_staker_info,
  remove_staker_info,
}
use anchor_token_contracts.Staking.Rewards.{compute_reward, compute_staker_reward}
use anchor_token_contracts.Staking.Contract.{
  Cw20HookMsg, bonds, HandleMsg, receive, unbonds, withdraws, bond, unbond, withdraw, run_hook,
  receive_cw20, handle,
}
use anchor_token_contracts.Staking.Effects.{bond_effect, unbond_effect, withdraw_effect}
use anchor_token_contracts.Staking.Books.{written}

-- The rewards that a message is answered by: what a withdrawal transfers.
abbrev pub rewards_in : HandleMsg → HandleResponse → ℕ
rewards_in withdraws r = paid_in r.messages
rewards_in (receive _) r = 0
rewards_in (unbonds _) r = 0

-- What the three operations share: the index is brought up to date, one account is settled and
-- written back or forgotten, and `out` of it is paid.
abbrev pub Settles : Deps → Storage → Env → Config → State → ℕ → Storage → Type 0
Settles d s env config state out s' =
    (key : CanonicalAddr) × (total : ℕ) × (state' : State) × (compute_reward d config state
        env.block_height
      ≡ ok state')
    × (info : StakerInfo) × (compute_staker_reward d state' (read_staker_info s key) ≡ ok info)
    × (final : StakerInfo) × (forget : Bool) × (final.reward_index ≡ info.reward_index)
    × (final.pending_reward + out ≡ info.pending_reward)
    × (forget ≡ true → final.pending_reward ≡ 0)
    × (s' ≡ record s {
      state = some (record state' { total_bond_amount = total });
      stakers = written key final forget s.stakers;
    })

kept :
    (d : Deps) (key : CanonicalAddr) (i : StakerInfo) (test : Bool) (state : State) (s : Storage)
    → store_state state (if test then remove_staker_info key s else store_staker_info key i s)
      ≡ record s { state = some state; stakers = written key i test s.stakers }
kept d key i true state s = refl
kept d key i false state s = refl

module _ (d : Deps) where
  bond-Settles :
      (s : Storage) (env : Env) (sender : HumanAddr) (amount : ℕ) (config : Config) (state : State)
      {s' : Storage} {r : HandleResponse}
      → s.config ≡ some config
      → s.state ≡ some state
      → bond d s env sender amount ≡ ok (s', r)
      → Settles d s env config state 0 s'
  bond-Settles s env sender amount config state conf stored h =
      let (
        key, _, config', conf', old, stored', state', computed, info, settled, total, _, bonded, _,
        e,
      ) =
        bond_effect d s env sender amount h in
      (
        key,
        total,
        state',
        ground (arith, computed, conf, conf', stored, stored'),
        info,
        settled,
        record info { bond_amount = bonded },
        false,
        refl,
        omega arith,
        λ gone. cc gone,
        e,
      )

  unbond-Settles :
      (s : Storage) (env : Env) (amount : ℕ) (config : Config) (state : State) {s' : Storage}
      {r : HandleResponse}
      → s.config ≡ some config
      → s.state ≡ some state
      → unbond d s env amount ≡ ok (s', r)
      → Settles d s env config state 0 s'
  unbond-Settles s env amount config state conf stored h =
      let (
        key, _, config', conf', old, stored', state', computed, info, settled, total, _, bonded, _,
        _, e,
      ) =
        unbond_effect d s env amount h in
      (
        key,
        total,
        state',
        ground (arith, computed, conf, conf', stored, stored'),
        info,
        settled,
        record info { bond_amount = bonded },
        (info.pending_reward == 0) && (bonded == 0),
        refl,
        omega arith,
        λ gone. ground arith,
        e
            ∙ kept d key (record info { bond_amount = bonded })
                ((info.pending_reward == 0) && (bonded == 0))
                (record state' { total_bond_amount = total }) s,
      )

  withdraw-Settles :
      (s : Storage) (env : Env) (config : Config) (state : State) {s' : Storage}
      {r : HandleResponse}
      → s.config ≡ some config
      → s.state ≡ some state
      → withdraw d s env ≡ ok (s', r)
      → Settles d s env config state (paid_in r.messages) s'
  withdraw-Settles s env config state conf stored h =
      let (
        key, _, config', conf', old, stored', state', computed, info, settled, token, _, sent, e,
      ) =
        withdraw_effect d s env h in
      (
        key,
        state'.total_bond_amount,
        state',
        ground (arith, computed, conf, conf', stored, stored'),
        info,
        settled,
        record info { pending_reward = 0 },
        info.bond_amount == 0,
        refl,
        rw sent (omega arith),
        λ gone. refl,
        e ∙ kept d key (record info { pending_reward = 0 }) (info.bond_amount == 0) state' s,
      )

  run_hook-Settles :
      (s : Storage) (env : Env) (sender : HumanAddr) (amount : ℕ)
      (hook : Result (Option Cw20HookMsg)) (config : Config) (state : State) {s' : Storage}
      {r : HandleResponse}
      → s.config ≡ some config
      → s.state ≡ some state
      → run_hook d s env sender amount hook ≡ ok (s', r)
      → Settles d s env config state 0 s'
  unfolding run_hook
  run_hook-Settles s env sender amount (ok none) config state conf stored h = cc
  run_hook-Settles s env sender amount (err e) config state conf stored h = absurd (ground arith)
  run_hook-Settles s env sender amount (ok (some bonds)) config state {s'} {r} conf stored h =
      let bonded : bond d s env sender amount ≡ ok (s', r) = ground arith in
      bond-Settles s env sender amount config state conf stored bonded

  pub handle-Settles :
      (s : Storage) (env : Env) (m : HandleMsg) (config : Config) (state : State) {s' : Storage}
      {r : HandleResponse}
      → s.config ≡ some config
      → s.state ≡ some state
      → handle d s env m ≡ ok (s', r)
      → Settles d s env config state (rewards_in m r) s'
  unfolding handle receive_cw20
  handle-Settles s env (receive m) config state conf stored h =
      run_hook-Settles s env m.cw20_sender m.cw20_amount m.hook config state conf stored h
  handle-Settles s env (unbonds amount) config state conf stored h =
      unbond-Settles s env amount config state conf stored h
  handle-Settles s env withdraws config state conf stored h =
      withdraw-Settles s env config state conf stored h
