-- ===== src/Lib.antt =====
-- A model of a FastAPI backend for software as a service, and the theorems that make it correct.
--
-- The program serves HTTP requests. A request opens a database session (app/db/session.py) that
-- commits at its end and rolls back on an exception; services (app/services) check roles and
-- change rows through repositories (app/repositories); tokens and passwords are in
-- app/core/security.py, with a blacklist in Redis (app/lib/redis.py). Paystack reports payments by
-- signed webhooks (app/services/billing_service.py), which set the plan of an organization. The
-- migrations of app/db/migrations make the tables that app/models declares.
--
-- Which file models what:
--   Errors         app/core/exceptions.py, and the exceptions of the libraries (a 500)
--   Models         app/models: enumerations, rows, UNIQUE constraints
--   Config         app/config.py: the constants and settings that the modelled code reads
--   Platform       hashing, JWT, random draws, slugify, TOTP, JSON, dates, the APIs of Paystack and
--                  of the OAuth providers: external code, parameters of the model
--   World          database, Redis, clock, random draws, mail; actions; `get_db` of app/db/session.py
--   Text           the methods of str that the code calls (lower, strip, title), decimal numbers
--   Policy         app/services/membership_policy.py and app/core/permissions.py
--   Repositories   app/repositories, and the queries that the services write out
--   RedisClient    app/lib/redis.py
--   Security       app/core/security.py
--   Org            app/services/org_service.py: each method of OrganizationService, by its name;
--                  Org/Spec is what its members amount to, the role of each user in each
--                  organization; Org/Refinement shows that the methods, each in a session
--                  as Org/Requests has it, implement it
--   Schemas        app/schemas/auth.py
--   Auth           app/services/auth_service.py: each method of AuthService, by its name
--   Accounts       the requests on accounts and the seed, each in its session, and what they keep
--   Deps           app/api/deps.py: the user of a request, and the gates of the routes
--   Mfa            app/api/v1/endpoints/mfa.py: the second factor
--   Account        app/api/v1/endpoints/users.py, and the user switches of admin.py
--   Admin          app/api/v1/endpoints/admin.py: the statistics and the lists
--   Routes         app/api/v1/endpoints/organizations.py: the handlers, by their names; below it
--                  Sessions for auth.py and health.py, Payments for billing.py, Providers for
--                  oauth.py
--   Pagination     app/lib/pagination.py
--   Validation     the checks on passwords of app/schemas/auth.py, and on the secret key
--   Responses      app/schemas/user.py and organization.py: what a response shows of the rows
--   Application    main.py and app/middleware/logging_middleware.py
--   Migrations     app/db/migrations/versions, and the columns that app/models declares
--   Seed           scripts/seed.py
--   Notifications  app/services/notification_service.py and app/api/v1/endpoints/notifications.py
--   Audit          app/services/audit_log_service.py
--   Mailer         app/lib/email.py
--   Json, Billing  app/services/billing_service.py: webhook, subscription record, cancellation
--   Checkout       app/services/billing_service.py: the start and the verification of a payment
--   Prelude, Samples   shared lemmas, and the data of the tests
--
-- How the state corresponds. A table is a list of rows. An INSERT checks the UNIQUE constraints
-- and foreign keys and raises an integrity error; `scalar_one_or_none` raises on two rows. The
-- assignments to a loaded object followed by `flush` are one UPDATE of the assigned columns of the
-- rows with its id. Every write is visible to the queries after it, which agrees with the code:
-- each write is flushed before the next query that depends on it. An action returns its result
-- and the world after it, and an exception keeps the writes, until `get_db` rolls them back.
--
-- Bounds and simplifications. Time is in whole seconds and stands still during a request. Texts
-- are ASCII for `lower` and `strip`. A random draw is a function of a counter, and that two draws
-- differ, or are new, is a hypothesis where it matters. The loop of `_unique_slug` has fuel: one
-- round more than there are organizations, since each round but the last meets another slug in use.
-- Decimal printing has fuel above the number, since each digit divides it by ten. The client that
-- reads page after page has a round for each row that is left, and one. An entry of Redis lives
-- while the time is before its expiry. A migration is the list of its operations, on a catalog of
-- tables and types in which an operation that the database refuses stops the migration:
-- a table that another refers to is not dropped, nor a type that a column has. Outside of
-- Migrations the tables are as app/models declares them. Of the lengths of columns, those of the
-- name, slug and logo of an organization are checked where one is created or updated; a longer text
-- in another column, which the database refuses too, is left out. The list of notifications keeps
-- the order of the table within one second, where the database may take any order, and takes no
-- negative limit or offset; for the lists of Admin that order is a parameter. What an uppercase
-- letter and a digit of Unicode are, for passwords, is a parameter.
--
-- Not modelled: HTTP and FastAPI wiring, pydantic parsing beyond the checks above, HTML of the mails,
-- the lines of the log, the readiness probe and the engine. `updated_at`, the claim `iat` and the
-- argument `extra` are read by no code and left out.
mod Prelude
pub mod Errors
pub mod Models
pub mod Config
pub mod Json
pub mod Platform
pub mod World
pub mod Text
pub mod Policy
pub mod Repositories
pub mod RedisClient
pub mod Security
pub mod Mailer
pub mod Schemas
pub mod Auth
pub mod Deps
pub mod Mfa
pub mod Account
pub mod Notifications
pub mod Org
pub mod Billing
pub mod Checkout
pub mod Audit
pub mod Routes
pub mod Migrations
pub mod Pagination
pub mod Admin
pub mod Validation
pub mod Application
pub mod Seed
pub mod Responses
pub mod Accounts
mod Samples
