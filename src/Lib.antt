-- ===== src/Lib.antt =====
-- A verification library for bitcoiners-dca, a bot that buys bitcoin at regular times on the
-- exchanges OKX, Binance and BitOasis. All paths are from the repository's root.
--
-- The program's parts, and the files that model them:
-- * src/bitcoiners_dca/core/models.py (Models): tickers, balances, orders, fees and minimums.
-- * src/bitcoiners_dca/core/routing.py (Routing): `TradeHop` and `TradeRoute` with their expected
--   output, the floor on their input (its proof is in Routing/Floors), and their effective price.
-- * src/bitcoiners_dca/core/router.py (Router and its children): `SmartRouter.pick` asks every
--   exchange for its market data (Router/Market), enumerates the routes from the quote currency to
--   the target asset (Router/Enumerate), drops those that the cycle cannot use and orders the
--   others (Router/Filters), and takes the first (Router/Pick). Router/Routes with its children,
--   Router/Ranking, Router/Choice and Router/Offer hold the proofs.
-- * src/bitcoiners_dca/core/risk.py (Risk): `RiskManager` pauses the bot after failed cycles
--   (Risk/Pausing) and caps what a cycle may spend (Risk/Caps).
-- * src/bitcoiners_dca/strategies/ (Overlays): the overlays, which scale or skip a cycle;
--   Overlays/Chain is the loop over them, Overlays/Bounds and Overlays/Drawdown hold what single
--   overlays do.
-- * src/bitcoiners_dca/core/strategy.py (Strategy): `DCAStrategy.execute` runs a cycle
--   (Strategy/Cycle): it cancels stale orders, applies the overlays and the risk ceiling, asks the
--   router, clamps to the balance, executes the route hop by hop (Strategy/Route; one hop is in
--   Strategy), and sums up the balances (Strategy/Balances). The amounts are in Strategy/Sizing;
--   Strategy/Budget is the arithmetic of the budget per cycle. Strategy/Exposure,
--   Strategy/Route/Threading, Strategy/Cycle/Ceiling and Strategy/Budget/Cadence hold the proofs.
-- * src/bitcoiners_dca/exchanges/base.py (Exchange): the sweep of the bot's open orders, the wait
--   for a fill, the settling poll and the fee columns; Exchange/Sweep, Exchange/Waiting and
--   Exchange/Settling hold the proofs. The interface that the strategy uses is the record `Venues`
--   in Strategy.
-- * src/bitcoiners_dca/core/arbitrage.py (Arbitrage): `ArbitrageMonitor.detect`; its proofs are in
--   Arbitrage/Profit.
-- * src/bitcoiners_dca/core/scheduler.py and persistence/db.py (Scheduler): one scheduled cycle and
--   the rows that it writes; Scheduler/Limits and Scheduler/Pauses hold the proofs.
-- * src/bitcoiners_dca/core/scheduler.py (Health): the periodic health checks; the proofs are in
--   Health/Outages.
-- * src/bitcoiners_dca/core/scheduler.py (Reload): the reload of a changed configuration, and the
--   jobs that follow it; proofs in Reload/Jobs.
-- * src/bitcoiners_dca/core/scheduler.py (Startup): the cron trigger, the start of the daemon with
--   the cycle that it missed, and its shutdown; the proofs are in Startup/Restarts.
-- * src/bitcoiners_dca/persistence/db.py (Persistence): the cycle lock that the daemon and the
--   dashboard share (at later times in Expiry); Persistence/Exclusion has the system of processes
--   that use it, crashes included. Persistence/Totals are the sums over the trades, with the rates
--   of stablecoins and the cost basis (proofs in its Rates); Persistence/Withdrawn are the rows of
--   withdrawals and the book of their destinations (proofs in its Destinations and Recent).
-- * src/bitcoiners_dca/web/config_writer.py (ConfigWriter): updates of the configuration by dotted
--   paths; proofs in ConfigWriter/Paths and ConfigWriter/Patches.
-- * src/bitcoiners_dca/persistence/secrets.py (Secrets): the store of encrypted credentials;
--   Secrets/Rotation holds the proofs.
-- * src/bitcoiners_dca/exchanges/okx.py (Okx): how the OKX adapter places a buy with retries;
--   Okx/Placement states what the exchange promises of client order ids and holds the proofs.
-- * src/bitcoiners_dca/exchanges/binance.py (Binance): how the Binance adapter places, reads and
--   cancels orders; Binance/Placement states what the exchange promises and holds the proofs.
-- * src/bitcoiners_dca/exchanges/okx.py, binance.py and bitoasis.py (Withdrawals): the submission
--   of a withdrawal by the adapters of OKX (Withdrawals/FromOkx, proofs in Withdrawals/Sent) and
--   Binance (Withdrawals/FromBinance, proofs in Withdrawals/Relayed); Withdrawals/BinanceStatus
--   looks one up; those from BitOasis are in Withdrawals/FromBitoasis (proofs in
--   Withdrawals/Posted).
-- * src/bitcoiners_dca/core/lightning.py (Lightning): the kinds of a destination, and how it
--   becomes an invoice; proofs in Lightning/Invoices.
-- * src/bitcoiners_dca/exchanges/bitoasis.py (Bitoasis): how the BitOasis adapter reads an order
--   and sweeps, and how it places a buy without idempotency keys (Bitoasis/Placing); proofs in
--   Bitoasis/Orders.
-- * src/bitcoiners_dca/web/dashboard.py (Dashboard): the middlewares that guard the dashboard
--   (proofs in Dashboard/Access) and the Buy-now button (Dashboard/BuyNow, proofs in its InFlight);
--   the form of the strategy (Dashboard/StrategyForm, proofs in its Saving and DailyCap), the way
--   to live trading (Dashboard/GoLive, proofs in its Gate), and the table of trades
--   (Dashboard/TradeLog, proofs in its Groups).
-- * src/bitcoiners_dca/utils/config.py (Config): what loading adds to the configuration; proofs in
--   Config/Budgets.
-- * src/bitcoiners_dca/persistence/reports.py (Reports): the export of a year, with its rows
--   (Reports/Years) and its totals (Reports/Sums).
-- * src/bitcoiners_dca/core/historical_prices.py and core/market_data.py (MarketData): the history
--   of prices with its cache (MarketData/Cache), the search for the nearest price
--   (MarketData/Nearest), and the market's snapshot.
-- * src/bitcoiners_dca/core/backtest.py (Backtest): the replay over a history of prices; proofs in
--   Backtest/Days.
-- * src/bitcoiners_dca/core/funding_monitor.py (Funding): readings of the funding rate and their
--   alerts; proofs in Funding/Cooldown.
-- * src/bitcoiners_dca/strategies/multi_asset.py (MultiAsset): the split of a cycle over several
--   assets; MultiAsset/Legs says which of them a plan buys.
-- * Prelude and its children are shared helpers; Decimal is Python's `decimal`. Tests holds
--   concrete worlds and runs.
--
-- The scheduler asks the risk manager for a ceiling, hands it to the strategy, and reports back
-- whether the cycle failed. The strategy asks the router for a route and places orders on the
-- exchanges. In the model these calls are functions on explicit states: `World` stands for all that
-- the exchanges keep, every call of an exchange takes it and returns it, and an exception is a
-- value (`raise`, or `none` where only one exception can be meant). What the exchanges answer is
-- arbitrary, but for the records of promises that some results ask for: `Promises` in
-- Strategy/Exposure, `Counts` in Okx/Placement, `Keeps` in Bitoasis/Orders, `Counting` in
-- Binance/Placement, `OkxRecords` in Withdrawals/Sent and `BinanceRecords` in Withdrawals/Relayed.
--
-- Numbers are exact decimals, in units of 10 ^ -60, whose operations round to 28 significant
-- digits, half to even, as Python's default context does. Loops over lists are structural
-- recursion. A wait is structural in the number of polls that its deadline allows. Two loops run on
-- fuel: the search for the rounding step in Decimal, which has the number itself as fuel while
-- every step divides it by ten, and the days of a replay, with fuel for each day from the first
-- price to the last; a result of Backtest/Days says that it is enough.
--
-- Not modelled: the scheduler's wrappers of the arbitrage and funding jobs, the database's log of
-- arbitrage and its migrations, notifications, the dashboard's pages and JSON endpoints, the
-- command line (these are glue and printing), the schema of the configuration, which pydantic
-- checks, the fetching of on-chain data, and the adapters' reads of tickers and trade history.
-- Texts for the user (notes, labels, reasons, logs) are left out, and so is the local time zone:
-- the local hour and the bounds of the local day are parameters.
pub mod Prelude
pub mod Decimal
pub mod Models
pub mod Okx
pub mod Bitoasis
pub mod Routing
pub mod Router
pub mod Risk
pub mod Overlays
pub mod Strategy
pub mod Exchange
pub mod Arbitrage
pub mod Persistence
pub mod Scheduler
pub mod MultiAsset
pub mod Startup
pub mod Config
pub mod MarketData
pub mod Binance
pub mod Reload
pub mod Withdrawals
pub mod Lightning
pub mod Reports
pub mod ConfigWriter
pub mod Dashboard
pub mod Funding
pub mod Backtest
pub mod Health
pub mod Secrets
pub mod Tests
