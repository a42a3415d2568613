-- ===== src/Lib.antt =====
-- The Python runtime of a point-of-sale backend for car washes (python/app), with the database of
-- db/001_schema.sql behind it.
--
-- Devices at wash bays send heartbeats, read their configuration, take payments and run commands; a
-- panel shows a company's figures; a worker sweeps over devices and alarms. The API has one session
-- of the database for each request, and all state is in the database.
--
-- The files, and the code that each models:
--   Prelude      numbers, options, texts, and tables as lists of rows with SELECT, UPDATE, INSERT
--   Schema       the tables of db/001_schema.sql and the sequences behind their ids
--   Errors       AppError of python/app/http.py, and exceptions of the database's driver
--   Session      get_session of python/app/db.py: statements, commit, rollback
--   Auth         python/app/auth.py, and authenticate_panel of python/app/dashboard.py
--   Heartbeat    python/app/heartbeat.py
--   Configuration   python/app/configuration.py
--   Payments     python/app/payments.py: Request, Uid and Payload have its helpers; Admission, Charge
--                and Create are the parts of create_payment in their order
--   Commands     python/app/commands.py: Pending, Acknowledge and Report are its three operations
--   Worker       python/app/worker.py
--   Dashboard    python/app/dashboard.py: Period has period_bounds, Overview the rest
--   Api          python/app/main.py: Endpoints has each endpoint, Server any sequence of requests
--                (Kept, Checked, Life and Money have what any sequence of them keeps, Retry
--                what a repeated payment does)
--   Seed         db/seed: Profile has profiles.py, Rows the INSERTs of seed.py, Database all of them
--                and row_counts
--   Gate         hard_gate of scripts/correctness_driver.py
--   Contracts    scripts/validate_contracts.py
--   Tests        the theorems at a small database
--
-- How the code is modelled:
--   - An operation is an action on a session: it reads and writes the tables that the open
--     transaction sees, may raise, and commits where the code does. An exception rolls back.
--   - Requests follow one another. This stands for the advisory lock and the row locks of the code:
--     no two transactions interleave here. The clock is an argument, read once in each operation.
--   - A time is a number of microseconds. A comparison with now minus a duration is written as one of
--     a sum, so nothing is cut off at 0. Amounts and ids are natural numbers, without the upper bound
--     of BIGINT: no operation adds to an amount, and ids count up by one.
--   - hmac, sha256, md5, json.dumps, yaml.safe_load and str.upper are parameters. Nothing is assumed
--     of them: what is proved of equal and different requests is proved of equal and different
--     hashes.
--   - Every loop runs over the rows of a query, so it is a recursion on a list. Only the digits of a
--     number in a seeded key are computed with fuel: 20 digits, and what is proved of keys is proved
--     of ids that have fewer.
--   - The ids that a seed leaves to a sequence count up in the order of the rows that it selects.
--
-- Not modelled: the engine and its pool, the request id and the server's time in an answer, ids as
-- decimal text, the JSON of a state or a snapshot (kept as text), and the constants of the overview.
-- UNIQUE and CHECK constraints are checked where an insert of the code can break them: the key of a
-- payment, the result of a command, and the amount of a ledger entry. A balance is a
-- natural number, so the gate's queries for a negative one cannot count here; that a debit never takes
-- more than there is comes with the case analysis of a charge. The statements with which the
-- correctness driver prepares its scenarios are not modelled, nor is psql. The Go runtime, the load
-- profiles, metrics and the other scripts are other programs of the repository.
pub mod Prelude
pub mod Schema
pub mod Errors
pub mod Session
pub mod Auth
pub mod Heartbeat
pub mod Configuration
pub mod Payments
pub mod Commands
pub mod Worker
pub mod Dashboard
pub mod Api
pub mod Seed
pub mod Gate
pub mod Contracts
pub mod Tests
