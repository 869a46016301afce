-- ===== src/Lib.antt =====
-- Verification library of Pocket ID, an OpenID Connect provider with passkeys (Go, backend/).
--
-- A request to the API passes the authorization middleware, which finds the caller by the first
-- credential that may hold the route's scope and lets it through only with that scope. What is
-- signed in by other means than a passkey is kept by actors, one for each code or token: device
-- login requests, login codes, signup tokens and email verifications. Redirect URLs of OpenID
-- Connect clients are matched against patterns. An authorization request of a client is granted once
-- its user has completed the steps of an interaction: signing in, choosing an account, signing in
-- again, and consenting to the scopes, which are recorded under keys. The server's own requests go only
-- where the allowlist of their purpose lets them.
--
-- Files:
--   AppError          backend/internal/apperror/error.go and constructors.go: `is_code` is IsCode
--   Result, Exec      Go's (value, error) results, and handlers that also change the world's state;
--                     Exec.Triples has the rules for their pre- and postconditions
--   Authz.Scope       backend/internal/authz/scope.go: the catalog, GrantableTo, UserScopes
--   Authz.Principal   backend/internal/authz/principal.go: RestrictUnverified
--   Authz.Middleware  backend/internal/authz/middleware.go: `authenticate`, and `require` with
--                     `decide` for what follows the authentication
--   Authz.Authenticators  backend/internal/middleware/authenticator.go and
--                     backend/internal/emailverification/pending.go
--   Actor             the client of github.com/italypaleale/francis that actors use, as a parameter;
--                     Actor.Store states what they rely on, Actor.Memory is a host in memory
--   DeviceLogin       RequestActor is backend/internal/devicelogin/actor.go: create, inspect, poll,
--                     decide, consume; Service is service.go: Create, Decide, Exchange
--   OneTimeAccess     backend/internal/onetimeaccess/actor.go: consume, restore; Service is
--                     the exchange of a code in service.go
--   UserSignup        backend/internal/usersignup/actor.go: create, consume, release, delete; Service
--                     is SignUp in service.go
--   EmailVerification backend/internal/emailverification/actor.go: issue, consume, discard,
--                     cancelChange, restore, pendingChange
--   CallbackUrl       backend/internal/utils/callback_url_util.go: Normalize is the translation of
--                     patterns, Matching the match and the searches through lists,
--                     Validation the test of a pattern before it is stored
--   Oidc              backend/internal/oidc: Resource is api_resource.go, Consent what
--                     authorization_service.go does about consents, PKCE, groups and max_age;
--                     Interaction is the session of models.go, interaction_session_dto.go and
--                     interaction_session_service.go, Steps completeInteractionStep and what it
--                     calls, Request and Authorization `authorize` and what it calls;
--                     Device is device_service.go
--   Api               backend/internal/api/service.go: AllowedScopesForAudience, SetAPIClientAccess,
--                     RemoveAPIClientAccess, Create, and the checks of UpdatePermissions; with
--                     Api.provider the API module is the provider that Oidc.Resource asks
--   ApiKeys           backend/internal/apikey/service.go: CreateApiKey, RenewApiKey, RevokeApiKey,
--                     ValidateApiKey and the static key's user
--   Outbound          backend/internal/outbound: Policy is policy.go, Requests the purposes and `New`
--                     of clients.go and RoundTrip of transport.go
--
-- Each part has its definitions in the module named above and the proofs in the modules below it;
-- the modules called Tests run the definitions on small inputs and apply the results to them.
--
-- The world an actor acts on is a type `W` that only the client's operations read or change. Of
-- these operations the record `Actor.Store.IsStore` assumes, over a view of the stored state and of
-- the clock: the clock does not go back; a read yields the stored state; a write or a delete that
-- succeeds has taken effect; a failed write stored the new state, or did nothing; and at any time
-- the host may purge a state, which then reads as the zero state. Calls may fail in any other way.
-- A handler runs as one turn of its actor, and turns of one actor do not interleave. Times are
-- natural numbers of nanoseconds. The JWT service, the user service, the API key module and the
-- configuration are a record of operations for the authenticators, about which nothing is assumed;
-- so are the database, the signer and the actors' host for the device login service, and the
-- operations of the standard library and go-urlpattern for redirect URLs.
--
-- The long poll of the device login is given by the number of ticks after which the wait ends, and
-- how it ends then; the theorem on it holds for every number.
--
-- `consent` calls itself where another caller creates the record first; the model counts these calls
-- (`consent_rounds`). Its database is a record of operations, with laws where the theorems need them:
-- they state what a call that succeeds reads or writes, and that a key is reported as duplicated only
-- where the record exists, and is then found.
-- The number of steps of an interaction is bounded under laws of the table of sessions: a session is read
-- as it is stored under its ID. The other theorems on authorization requests assume nothing of the
-- database, the API access provider and fosite.
--
-- What a handler that succeeds has done is stated by the calls of its parameters with their arguments
-- written out, as a rule in their order, each on the state that the one before left.
--
-- All loops are structural recursion; only the digits of a number use fuel, the number's successor,
-- which the lemma `value_from-itoa` shows to be enough.
--
-- Not modelled: the protocol engine, its store and its handlers (the rest of backend/internal/oidc),
-- the operations of backend/internal/api that list, edit and delete APIs, the database services
-- (backend/internal/service), the notification of
-- expiring API keys, the email verification service, LDAP and SCIM
-- synchronisation, storage, mail, the controllers, and the start-up code.
pub mod Prelude
pub mod AppError
pub mod Authz
pub mod Result
pub mod Exec
pub mod Actor
pub mod DeviceLogin
pub mod OneTimeAccess
pub mod UserSignup
pub mod EmailVerification
pub mod CallbackUrl
pub mod Oidc
pub mod Outbound
pub mod Api
pub mod ApiKeys
