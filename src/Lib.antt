-- ===== src/Lib.antt =====
-- Simple directory: users, organizations, memberships, sessions, partners, sites and the
-- rights of non-human identities.
--
-- The service stores its users and organizations in MongoDB, issues signed session cookies to
-- browsers and lets an exchange token renew them. It also grants OAuth clients access in the
-- name of users and of non-human identities. The parts that are modelled, and where they are:
-- - Collection: the methods of the MongoDB driver, a parameter of everything that reads or
--   writes (api/src/mongo.ts opens the collections). Its laws say what a filtered read, write
--   or deletion does to the list of documents; list_collection meets them.
-- - Types: the documents (api/types).
-- - Scopes: shared/scopes.ts, the dense view of a list of scopes.
-- - Nhis.Scopes: api/src/nhis/scopes.ts, the scopes of non-human identities. The tests of
--   scopes of lib-express and lib-common-types are the parameter ScopeLib.
-- - Nhis.Records, Nhis.Exchange: the handlers of api/src/nhis/router.ts that create and patch
--   an identity, with api/src/nhis/service.ts, and loadExchangeNhi of
--   api/src/nhis/exchange.ts. The checks of keys and addresses, which call the network and
--   node:net, are parameters.
-- - Members: addMember, patchMember, removeMember and required2FA of
--   api/src/storages/mongo.ts.
-- - MemberRoutes: the routes of members of api/src/organizations/router.ts, over findMembers
--   of api/src/storages/mongo.ts and the counts of api/src/limits/service.ts. It calls Members
--   and Users.Storage. The role of who asks comes from getAccountRole of the library, a
--   parameter.
-- - Organizations: patchOrganization and deleteOrganization of api/src/storages/mongo.ts, with
--   the memberships and partners that refer to the organization, the quota of departments.
--   Organizations.Departments: the identifiers that PATCH /:organizationId of
--   api/src/organizations/router.ts gives to new departments.
-- - Partners: shared/partners.ts, the routes of partners of api/src/organizations/router.ts,
--   their storage methods and their quota (api/src/limits/service.ts).
-- - Users: the administrator flag of cleanUser in api/src/storages/mongo.ts. Users.Storage:
--   methods of users of the same file, deleteUser with the tokens and grants that refer to the
--   user, and the routes of api/src/nhis/router.ts that delete an identity or revoke its
--   grants.
-- - Sessions: exchangeTokenCurrent and the end of setSessionCookies in
--   api/src/tokens/service.ts, over updateSessionById, getSessionById and deleteSessionById of
--   api/src/storages/index.ts. The three collections that hold sessions are three parameters
--   of type Holder.
-- - Tokens: the rest of api/src/tokens/service.ts. Tokens has getTokenPayload and
--   getDefaultUserOrg, Tokens.Jar and Tokens.Cookies have setSessionCookies and
--   switchOrganization, Tokens.Decision and Tokens.Keepalive have keepalive and logout.
--   Signing and verification are the parameter Signer. keepalive calls Sessions and Grants.
-- - Grants: api/src/oauth-server/grants.ts, the records of OAuth grants and their revocation.
-- - Subjects: api/src/oauth-server/grant-subject.ts, the check of a grant at each issuance of
--   a token. It calls Nhis.Scopes, Nhis.Exchange, Tokens (the payload) and the accounts of
--   api/src/oauth-server/consent.ts; the clients of a site are a parameter.
-- - Issuers: api/src/oauth-server/issuers.ts, which sites issue OAuth tokens and for which
--   resources. Subjects calls it; it calls Sites.
-- - Clients: api/src/oauth-server/clients.ts and the rules of api/src/oauth-server/dynamic-
--   clients.ts: kinds of clients, redirection uris and metadata of dynamic clients. The URL
--   parser is a parameter.
-- - OauthAdapter: api/src/oauth-server/adapter.ts, the documents that the OAuth provider
--   stores. OauthAdapter.Promised has the map from identifiers to documents that its writes
--   promise to change.
-- - OauthTokens: api/src/oauth-tokens/service.ts, the tokens that identity providers gave for
--   the users.
-- - Passwords: shared/password.ts, api/src/utils/passwords.ts and api/src/2fa/service.ts: the
--   rules of passwords, their comparison, and when a second factor is wanted.
-- - Login: the routes POST /password and POST /passwordless of api/src/auth/router.ts. What a
--   route does last is the value that it returns (a refusal, a session that is opened, a
--   mail). It calls Passwords, Sites and Tokens (the payload).
-- - Callback: prepareCallbackUrl of api/src/tokens/service.ts, the link that opens a session.
--   Callback.Route: the route GET /token_callback of api/src/auth/router.ts that consumes it.
--   It calls Tokens and Sessions.
-- - AuthProviders: authProviderMemberInfo and the memberships of patchCoreAuthUser in
--   api/src/auth/service.ts, what an identity provider asserts of the members of
--   organizations. It calls Members (addMember).
-- - Invitations: api/src/invitations/service.ts, the short form of invitations.
--   Invitations.Accept: the checks of the route GET /_accept of api/src/invitations/router.ts;
--   Invitations.Accept.Write has its writes. It calls Members (addMember) and Users.Storage.
-- - Exits: the early returns of a route, used by Login, Callback and Invitations.
-- - Keys: api/src/tokens/keys-manager.ts, the two sets of signature keys. Keys.Running has the
--   states of a service under restarts and rotations. The cipher of the secrets, openssl and
--   the files of old deployments are parameters.
-- - Sites: api/src/sites/service.ts, which site answers a request, where its accounts live and
--   where a login may redirect to. The URL parser is a parameter. Nhis.Exchange uses the
--   owners of sites.
--
-- An HTTP error is err with its status, see Common.Results. A text or field that JavaScript
-- tests as a condition is tested by truthy, which the empty text fails. The clock, nanoid(),
-- toLowerCase and decodeURIComponent are arguments. One loop runs on fuel, the search of a
-- free identifier of a department: it gets one turn more than there are identifiers, which is
-- proved to be enough. Every other loop of the code that is modelled is a recursion on a list
-- or on a text.
--
-- Not modelled: the user interface, the LDAP and file storages, mails, avatars, webhooks,
-- events and logs, the other routes of authentication, the routers of users and organizations
-- beyond what is listed, the configuration of the OAuth provider, OIDC and SAML clients,
-- upgrade scripts and configuration.
pub mod AuthProviders
pub mod Callback
pub mod Clients
pub mod Collection
pub mod Common
pub mod Exits
pub mod Grants
pub mod Invitations
pub mod Issuers
pub mod Keys
pub mod Login
pub mod MemberRoutes
pub mod Members
pub mod Nhis
pub mod OauthAdapter
pub mod OauthTokens
pub mod Organizations
pub mod Partners
pub mod Passwords
pub mod Scopes
pub mod Sessions
pub mod Sites
pub mod Subjects
pub mod Tokens
pub mod Types
pub mod Users
