-- ===== src/Lib.antt =====
-- A model of the contracts of the Anchor token: governance (contracts/gov), vesting
-- (contracts/vesting), rewards for liquidity providers (contracts/staking), the airdrop
-- (contracts/airdrop), the borrowers' fund (contracts/distributor), the community fund
-- (contracts/community) and the collector of protocol fees (contracts/collector). Each is a
-- contract of its own with its own storage. They meet through messages only: a contract answers a
-- message with messages that the platform delivers, such as a transfer of the token, the
-- `Distribute {}` that the collector sends to itself, or the messages of a poll that governance
-- executes.
--
-- Files. Base: shared names, tests, lists, `Result`, storage buckets and sums over them. Cosmwasm:
-- the platform (cosmwasm_std, cw20) as the parameter `Deps` with its documented behaviour as
-- `IsCosmwasm` and `IsAddressCodec`; Cosmwasm/Example is a platform that has this behaviour.
-- Paging: the ranges of contracts/gov/src/state.rs and contracts/vesting/src/state.rs. For the
-- contract X, X/Types (or X/Contract) is contracts/x/src/state.rs with the messages of
-- packages/anchor_token/src/x.rs, and the other files are contracts/x/src/contract.rs:
-- Gov/Settings (init, the configuration, the validators), Gov/Staking (staking.rs),
-- Gov/Polls/Create, End, Close and Vote (the life of a poll), Gov/Contract (the dispatch of
-- messages), Gov/Queries; Vesting/Claims and Staking/Rewards (the release and reward
-- computations), Vesting/Contract, Staking/Contract, Airdrop/Contract and their queries;
-- Airdrop/Merkle (the proof loop). Gov/Effects says what an operation found and wrote when it
-- succeeded, Gov/Invariant what holds between messages, Gov/Laws what an operation promises.
-- Linear has the linear release that vesting and staking share, Linear/Returns when it goes
-- through. Vesting/Release, Payments, Claimable and Schedules, Staking/Effects, Bonds, Payout,
-- Accrual, Books, Settlement, Solvency, Ledger, Custody and Recovery, Airdrop/Tree, Claimed,
-- Forgery, Descent and Sound, Distributor/Whitelist and Removal, Community/Fund, Collector/Split,
-- Paging/Pages and Paging/Entries do so for the other parts. Querier is
-- packages/anchor_token/src/querier.rs, with what it leaves of an amount in Querier/Tax. The
-- Tests files and Gov/Example, Runs, Scenario, Outcomes and Stakes hold runs and concrete
-- inputs. Functions and fields have the source's names; where one name would serve a message and
-- its handler, the message is a verb form (`claims`, `spends`).
--
-- State and errors. A handler takes the storage and returns `Result (Storage × HandleResponse)`.
-- An error of the source and a panic are both values of `Error`: the platform aborts the
-- transaction and keeps the old storage for either, so an early write before an error is not seen.
-- A storage singleton is an `Option`, a bucket is an association list in ascending order of its
-- keys, and a key stands for its bytes as a number, which has the same order because the keys of
-- one bucket have one length. Integers are ℕ. The workspace is built with overflow-checks, so u64
-- and u128 arithmetic panics on overflow (`add_u64`, `sub_uint`, `mul_u128`); `Uint128` and
-- `Decimal` are operations of `Deps`. Loops are recursions on the list they walk, so no fuel is
-- needed.
--
-- Runs. The governance contract reads its token balance in each message, so a step of its runs
-- (`Reach` of Gov/Invariant/Index) has answers of the other contracts of its own (`answering` of
-- Cosmwasm/Types); the address codec and the arithmetic stay. The other contracts that a run is
-- stated for query nothing while they handle a message.
--
-- Not modelled: JSON and storage encoding, the printed form of numbers in logs and in one error
-- text (`Must deposit more than ..`), `migrate`, which does nothing, schema generators, mocks and
-- tests. Hashing, hex decoding (airdrop), terraswap (collector) and the queries and 256-bit
-- numbers of the query helpers are parameters.
pub mod Base
pub mod Cosmwasm
pub mod Querier
pub mod Paging
pub mod Linear
pub mod Gov
pub mod Vesting
pub mod Staking
pub mod Airdrop
pub mod Distributor
pub mod Community
pub mod Collector
