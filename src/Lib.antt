-- ===== src/Lib.antt =====
-- Verification library of the INTELL back end, a NestJS server that reads solar inverters, raises
-- alerts about them, and shares them among the members of a team.
--
-- The inverters service connects a user's inverter, stores its credential and announces it on a
-- control channel, as it does when an inverter is deactivated.
-- The poller tracks the inverters that a control channel announces, reads each at intervals, saves
-- and publishes the readings, and raises an alert when an inverter fails three times in a row.
-- A published metric arrives on a Redis channel. The detection job estimates when the battery
-- is empty, compares the readings with thresholds, drops alerts that repeat, saves the others, and
-- queues a job for each: at once, or at the end of the user's quiet hours. The dispatch processor
-- takes the jobs and delivers over WhatsApp, then e-mail. The alerts service reads, counts, resolves
-- and reports the saved alerts. A health status in four colours sums up the last reading of an
-- inverter, and its insights say how long the battery lasts and what that is worth. The team service
-- invites members to an inverter, and a guard asks its table before a
-- request about an inverter is served. The users service keeps accounts, their sessions,
-- subscriptions and settings; the auth service signs users in and out with passwords, one-time codes
-- and Google accounts, and rotates the refresh token of a session at each use. The installers
-- service keeps the profiles of installers and their assignments to inverters. The pub/sub service
-- hands the messages of a channel of Redis to the clients that follow it.
--
-- What models what (paths from the repository's root):
--   Common/Enums             src/common/enums, src/common/constants/processing-status.ts
--   Exec                     asynchronous methods: state passing, errors as values
--   Users, Inverters         the entities of src/modules/users and src/modules/inverters
--   Database                 a table of rows as services use it, its laws, and one that is a list
--   Users/Accounts           the tables and services that the users service uses
--   Users/Rows, Service      src/modules/users/users.service.ts, accounts and subscriptions, and its
--                            actions
--   Users/Sessions           the sessions of that service, and actions/sessions.action.ts
--   Users/Settings           the personal settings of that service
--   Users/Admins             the super administrator's operations of that service
--   Auth/Redis               src/common/redis/redis.service.ts
--   Auth/Backend             the clients and libraries that the auth service uses
--   Auth/Tokens              src/modules/auth/auth.service.ts: tokens, refresh and sign-out, and
--                            strategies/jwt.strategy.ts
--   Auth/Service             the same service: passwords and one-time codes, and otp.util.ts
--   Auth/Passwords           the same service: forgotten passwords
--   Auth/Signin              the same service: Google, and strategies/google.strategy.ts
--   Auth/Redirect            src/common/utils/redirect.util.ts
--   Alerts/QuietHours        src/modules/alerts/helpers/quiet-hours.ts
--   Alerts/Depletion         src/modules/alerts/helpers/depletion-engine.ts
--   Alerts/Thresholds        src/modules/alerts/helpers/alert-thresholds.ts
--   Alerts/Suppression       src/modules/alerts/helpers/duplicate-suppression.ts
--   Alerts/Whatsapp          src/modules/alerts/helpers/whatsapp-helpers.ts
--   Alerts/Entity            src/modules/alerts/entities/alert.entity.ts, jobs/alert-dispatch.jobs.ts
--   Alerts/Backend           the tables, queue and clock that the detection job uses
--   Alerts/Detection         src/modules/alerts/jobs/alert-detection.job.ts
--   Alerts/Fallback          src/modules/alerts/fallback.service.ts
--   Alerts/Dispatch          src/modules/alerts/jobs/alert-dispatch.processor.ts
--   Alerts/Tally, Service    src/modules/alerts/alerts.service.ts, actions/alert.action.ts
--   Team/Member              src/modules/team-access/entities, src/common/enums/inverter-role.enum.ts
--   Team/Backend             the table, services, mailer and tokens that the team service uses
--   Team/Access              src/modules/team-access/team-access.service.ts and its action
--   Team/Guard               src/common/guards/inverter-role.guard.ts
--   Inverters/Service        src/modules/inverters/inverters.service.ts and its action
--   Poller/Tracker, Polling  src/modules/metrics-stream/poller/metrics-poller.service.ts
--   Metrics/Health           src/modules/inverters-metrics/helpers/health-status.helper.ts
--   Metrics/Fuel             src/modules/inverters-metrics/data/fuel.ts
--   Metrics/Insights         getSystemInsights of src/modules/inverters-metrics/
--                            inverters-metrics.service.ts
--   Installers, Rows         the entities and data-transfer objects of src/modules/installers
--   Installers/Service       src/modules/installers/installers.service.ts
--   Stream/PubSub            src/modules/metrics-stream/pubsub/metrics-pubsub.service.ts
--   Poller/Credentials       the stored credential of that poller and inverters.service.ts
-- Each has the source's functions under their names, in snake case. Child modules hold the proofs
-- and are named for what they prove; Tests modules run the code on concrete data.
--
-- Conventions. Decimal quantities (percent, kW, kWh, minutes) are whole numbers of thousandths, and
-- their quotients are exact, so that a rounding of the source is a rounding of integers and the
-- error of binary floating point is not modelled. At a bound that the source itself computes from a
-- decimal factor, as 30% of a panel's capacity, the source may decide either way. Dates are
-- milliseconds since the epoch, and the process runs in UTC. A clock text "HH:mm" or an offset is
-- the numbers that it is read into. A nullable value is an option. A method that awaits takes and
-- returns the state of the world, and keeps what it had done when it throws; log lines are left
-- out. One method runs at a time, except in Auth/Tokens/Rotation, where the requests that touch
-- refresh tokens interleave at every wait. Keys of Redis do not expire by themselves. Repositories,
-- queues, mailers and clocks are parameters: records of operations, and records of the laws that
-- are asked of them, each of which a Tests module fills. Every loop is structural recursion over a
-- list, and printing a number recurses on fuel that is the number itself.
--
-- Not modelled: controllers, modules and validation decorators (no logic of their own), the
-- adapters of inverter brands, e-mail and storage (calls of outside services), the database's
-- migrations and seeds, the upload of profile images, and the modules for reports, the
-- aggregation of metrics by the database, the chatbot, the super administrator's figures, and
-- the tables of feedback, AI usage, contacts, leads and the waitlist.
pub mod Prelude
pub mod Common
pub mod Exec
pub mod Database
pub mod Users
pub mod Inverters
pub mod Alerts
pub mod Team
pub mod Poller
pub mod Metrics
pub mod Auth
pub mod Installers
pub mod Stream
