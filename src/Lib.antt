-- ===== src/Lib.antt =====
-- TPF2MP keeps several copies of a Transport Fever 2 game in step. A companion process beside each
-- game orders the players' actions, and every peer replays them through the same integer model.
-- This library models parts of the companion, companion/tpf2mp.
--
-- Base holds what the rest shares. Python's integers are numbers of ℕ where the code keeps them
-- from being negative, and ℤ elsewhere (Base.Int), with `//` as `div_floor`. A dict with text keys
-- is an association list in insertion order (Base.Dict), `sorted` and `sort(key=...)` are a stable
-- insertion sort (Base.Sort), and code that raises returns a result (Base.Results).
--
-- Economy is the economy of companion/tpf2mp/checkpoint.py. Economy.Amounts has the money
-- arithmetic (`_period_charge`, `_difficulty_apply`, `_wallet_delta_dollars`, `_glide_step` and
-- others), Economy.Logit the weight table of `_logit_weight_with_cutoff`, Economy.Records
-- `_integer` and the upserts, Economy.Share `_proportional`, Economy.Market `_attractiveness` and
-- `_evaluate_market`, Economy.Settlement `_evaluate_all`, and Economy.Towns the towns: their
-- records, the demand between them (`_refresh_market_demands`) and their growth
-- (`_advance_town_demand`). The `while` loop of `_evaluate_market` runs on fuel, one round for each
-- candidate and one more: each round but the last takes at least one candidate out.
--
-- Freight is the industrial cargo of companion/tpf2mp/freight.py. Freight.Records is its state,
-- Freight.Protocol the checks of freight_protocol.py on a bootstrap and `apply_bootstrap`, with the
-- calls of `re`, `checksum` and `canonical_json` as the parameter `Checks`, Freight.Production the
-- epoch of `advance`, Freight.Store the deposits and withdrawals, and Freight.Transport the two
-- loops of freight_transport.py, `stage` and `commit_all`: the first checks and reserves for all
-- lines, the second changes the state. A state is sound (Freight.Protocol.Sound) when every recipe
-- lists its requirements in ascending order, stocks are numbered from 0, residuals are below 3600
-- and outputs within the accumulator.
--
-- Commits is the index of companion/tpf2mp/commit_index.py over the commits that have arrived,
-- whose `while` loop runs on as much fuel as the highest number it knows. Deadlines is the
-- `PausedDeadlineRegistry` of companion/tpf2mp/paused_deadline.py, with times as numbers of clock
-- ticks; the host's polls are a list of samples of the pause and the clock.
--
-- Anchors is the index of companion/tpf2mp/anchor_history.py over the host's ordered commits:
-- `refresh` follows the commits that are new, or starts again where the counts are out of step, and
-- `reindex` is the scan of the whole history.
--
-- Registry is the pending view of companion/tpf2mp/consensus_registry_index.py over one registry of
-- trackers; how a registry changes between questions is the relation `Step` of Registry.Cached.
--
-- Not modelled are files, sockets, threads, JSON, hashes and most schema checks of the wire
-- protocol; what a schema check guarantees is a hypothesis of the theorem that needs it. The later
-- versions of the market model, the record of a settlement in the ledger, the development points of
-- towns, the rebuild of the passenger network, the clock and the consensus of peers are not
-- modelled either.
pub mod Base
pub mod Economy
pub mod Freight
pub mod Commits
pub mod Deadlines
pub mod Anchors
pub mod Calendar
pub mod Registry
pub mod Network
pub mod Match
pub mod Reconnect
