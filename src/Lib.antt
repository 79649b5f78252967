-- ===== src/Lib.antt =====
-- Verification of the Zylo Office backend (app/): a FastAPI service with one Postgres database,
-- whose modules are services over SQLAlchemy sessions. A request runs in one transaction: it ends
-- with a commit, or with an AppError that commits nothing.
--
-- The parts that are modelled, and the files that model them:
-- * Authorisation (app/rbac/service.py, app/rbac/models.py). Rbac.Tables holds the tables, one list
--   of rows for each, in order of insertion. Rbac.Resolution is the decision of
--   user_has_permission with the queries that it rests on; Rbac.Roles is the life of roles and of
--   their attribution; Rbac.Grants is that of individual grants, their delegation, the cascade of a
--   revocation, and the filters of lists. The three share the tables and call
--   user_has_permission for every check.
-- * The audit trail (app/audit/service.py). Audit adds the entry of an action to its transaction;
--   History is the listing of entries, which asks user_has_permission what the reader may see.
-- * Alerts (app/alerts/service.py, app/alerts/models.py). Alerts opens, refreshes, acknowledges and
--   closes alerts; the services of detection call it with a key and a measure.
-- * Tracking of vehicles (app/location/algorithms.py). Tracking filters positions, detects stops
--   and recognises places.
-- * Tanks (app/modules/zylo_liquid/algorithms.py). Tanks.Levels compares heights with thresholds and
--   classifies variations; Tanks.Calibration turns a height into a volume.
-- * Monitoring of tanks (run_alert_evaluation_for_tank in app/modules/zylo_liquid/service.py).
--   Monitoring finds the probes of a tank, compares their heights by Tanks.Levels and opens or closes
--   alerts by Alerts.
-- * Reconciliation of deliveries (same file, _tolerance to _reverse_match_delivery_detected).
--   Reconciliation.Matching chooses a detection for a declared line and compares the volumes;
--   Reconciliation records the result and tells Alerts; Reconciliation.Requests has the choice of a
--   user, the return from a new detection and the sweep of stale lines.
-- * The commercial layer (same file, create_sale, create_payment, create_product_sale_transaction,
--   cancel_product_sale_transaction). Commercial.Sales checks the credit of a customer and opens
--   receivables, Commercial.Payments settles them, Commercial.Shop sells products on tickets with
--   their stock and credit. Each asks user_has_permission first.
-- * Prices (same file, _resolve_applicable_price, _resolve_station_default_currency and their two
--   batch versions, over app/shared/currency.py and app/shared/geo.py). Pricing.Currencies finds the
--   currency of a station, Pricing.Prices the price in force; the batches read each table once, and
--   Pricing.Dictionaries has the dictionaries that they look rows up in.
-- * The registry of modules (app/modules_registry/service.py). Modules deactivates a module, guards
--   routes that require one module or one of several, and gives owners the permissions of their
--   modules, on the tables of Rbac.Tables.
-- * Sessions (app/auth/service.py). Sessions issues, rotates and revokes refresh tokens.
-- * The cache of reference data (app/shared/simple_cache.py). Cache is a store with times to live.
--
-- Conventions. A UUID is a number, and the id that a new row gets is an argument (`fresh`), as is
-- the time of the call (`now`). A query is a selection of the rows of a list; `scalar_one_or_none`
-- fails on two rows, as SQLAlchemy's does. An operation returns a Result: its value with the new
-- tables, or the error code; a row that a CHECK refuses is the error of the database. A foreign
-- key is taken to hold, as the callers pass the ids of rows that they have read. A set is a list
-- up to membership. Times and measures are whole numbers of a small unit, and a quotient is
-- compared by cross multiplication: the rounding of floats is not modelled. The distance on the
-- sphere is a parameter, as it rests on Python's math; so are the database's LIKE, Python's
-- startswith, the digest of hashlib and the decoding of the JWT library.
--
-- Fuel. The loop of revoke_grant gets one round more than there are grants. That is enough on
-- valid tables, where a delegation points to an older row: each round moves to strictly later
-- rows.
--
-- Not modelled: the text of summaries and of errors, other listings, HTTP routes, schemas,
-- configuration, migrations, seeds, and the I/O with the sensor provider and the file store;
-- concurrent transactions, since each operation is one transaction on the tables that it reads.
-- Of the service of Zylo Liquid the rest is left out: the creation and correction of prices,
-- declarations, supply, documents, the reconciliations other than that of deliveries. So are Zylo
-- Tanker, the detection of deliveries, the activation of a module with its default roles, identity,
-- passwords, billing and exchange rates.
pub mod Prelude
pub mod Audit
pub mod Rbac
pub mod Alerts
pub mod Tracking
pub mod Tanks
pub mod Cache
pub mod Modules
pub mod History
pub mod Sessions
pub mod Commercial
pub mod Monitoring
pub mod Reconciliation
pub mod Pricing
