-- ===== src/Lib.antt =====
-- Verification of the Yourz Gift backend (Go), a gift-list service: owners keep lists of items,
-- guests reserve quantities of them by a share code, and friends see each other's lists.
--
-- A request goes from a handler to a service, from there to repositories, and from there to gorm and
-- PostgreSQL. The model starts at the services.
--
--   Base         shared names: results (Error, Result, Exec: a state and an error), list queries
--   Base/Text    utils/string.go and utils/regex.go over the parameter TextLib (character tables,
--                regular expressions, mail.ParseAddress, x/text)
--   Utils        RandomCode of utils/string.go
--   Db           the parameter Driver: the tables of one gorm model, the statements that the
--                repositories run on them, and the documented effect of a statement that succeeds;
--                Db/Memory is a driver in memory, which meets the laws
--   Domain, Dto  internal/domain and internal/dto/gift.go, one record for each struct
--   Repo         internal/repositories/generic: Columns is helper.go, Generic is generic.go
--   Gift         internal/services/gift/service.go (Lists, Items, Reservations, Friends, Public) over
--                internal/repositories/gift/gift.go (Repo, Sharing). The state is a Database, one
--                table for each model; an operation is a function of it into a Result and the
--                Database after it, named as the Go method in snake case
--                Gift/Stock, Safety, Friendship, Visibility, Expiry and Responses hold theorems
--   Redis        the parameter Redis: the commands of go-redis on a store, and their documented effect;
--                Redis/Memory is a Redis in memory, which meets the laws
--   Otp          internal/services/otp over internal/repositories/otp/otp_repo.go (Otp/Repo)
--   Reset        internal/services/reset over internal/repositories/reset/reset_repo.go (Reset/Repo)
--   Session      internal/services/session over internal/repositories/session/session_repo.go
--                (Session/Repo), with encoding/json as the parameter Codec
--   Limiter      pkg/security/login_limiter.go
--   Access       internal/services/role, permission and menu over their repositories (Permissions, Roles,
--                Navigation), ResolveAccessibleMenus of internal/services/shared/menu_access.go (Menus),
--                the permission and role middlewares of middlewares/auth.go with the cache of
--                internal/cache/permission, a list of user ids with their keys (Gate), and what
--                takes keys out of it, over the parameter CacheRedis, with the documented effect
--                of SCAN and DEL (Invalidation)
--   Auth         internal/authscope/context.go and HasPermission of
--                internal/services/shared/menu_access.go
--   Account      internal/services/user over the state of Access: Text holds utils/regex.go and the checks
--                of a password and a login name, Jwt utils/jwt.go, Creating, Google, Changing and
--                Tokens the methods of ServiceUser, with internal/repositories/auth; bcrypt, the
--                signing and the parsing of a token are parameters
--   Tests        runs on a database in memory, and the theorems at concrete inputs
--
-- SQL conditions, sums and orders are functions on the rows of a table. A statement can fail with an
-- error of the storage; whether a read fails is part of the table's state, so two reads with no write
-- between them agree. Times are numbers of nanoseconds, one instant for a call. Quantities and
-- priorities are natural numbers: the binding tags and the CHECK constraints keep them non-negative;
-- the one difference that may be negative, in the message of a refused reservation, is a signed
-- integer. A failed Redis command may have written its key; no key expires within a call. The texts that
-- fmt.Errorf puts around an error are left out. Requests come one after the other. Recursion is structural
-- on lists and texts; two loops run on fuel, since they need not end: that over the parents of a menu,
-- whose theorems say when some fuel is enough and when none is, and the SCAN loop that empties the
-- permission cache, for which more fuel than the rounds of a SCAN is enough (Access/Invalidation).
--
-- Not modelled: handlers, the router, the other middlewares and services, filters of a listing by a time,
-- the expiry of cached permission keys, the mail, storage and logging code (input and output), and the frontend.
pub mod Base
pub mod Db
pub mod Domain
pub mod Dto
pub mod Utils
pub mod Repo
pub mod Redis
pub mod Otp
pub mod Session
pub mod Reset
pub mod Limiter
pub mod Auth
pub mod Access
pub mod Account
pub mod Gift
pub mod Tests
