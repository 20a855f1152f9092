-- ===== src/Lib.antt =====
-- EdgeFabric: a controller that provisions edge nodes and serves the configuration of their DNS
-- zones, routes and CDN sites.
--
-- The program. The HTTP API (internal/api) decodes requests, lets internal/rbac decide whether the
-- caller may do what is asked, and calls a service for each kind of resource. A service validates
-- the request and runs SQL statements through internal/storage. internal/provisioning runs jobs
-- that change nodes over SSH. Nodes and gateways poll the services for their configuration;
-- on a node, internal/dnsserver, internal/cdnserver and internal/routeserver serve what was polled.
--
-- The parts:
--   Domain         internal/domain and internal/auth: roles, claims, nodes and groups.
--   Exec           internal/storage: the errors, and code that reads and writes tables and may
--                  fail. Each query is one entry of a list of driver faults, any of which may be
--                  set, so that any query may fail; a violated foreign key is such a fault.
--                  Exec/Reads has the rules for code that changes nothing, and Exec/Hoare those for
--                  code between two conditions.
--   Rbac           internal/rbac (Authorize), internal/api/middleware (RequirePermission,
--                  TenantFromClaims, RequireResourceOwnerOrAdmin) and internal/api/apiutil
--                  (CanAccessTenant, CanAccessTenantVal).
--   Provisioning   internal/provisioning and internal/domain/provisioning.go. Actions has the
--                  transition table, PipelineFor and shouldRollback; Start has startAction and its
--                  statements; Pipeline has runPipeline, one function for each part of its loop,
--                  with the writes to the database as a list. The steps are the parameter
--                  `Outside`: they run commands over SSH, and the model says what they return.
--                  Overlay has AllocateOverlayIP, and Enrollment has GenerateEnrollmentToken,
--                  ValidateEnrollmentToken and CompleteEnrollment with the statements for tokens,
--                  peers and nodes. Keys, encryption, and the parsers and printers of addresses are
--                  parameters.
--   Dns            internal/dns and internal/storage/sqlite/dns_{zone,record}.go. Validation has
--                  validateRecord and its helpers; Records has CreateRecord, UpdateRecord and
--                  DeleteRecord; Zones has CreateZone, UpdateZone and DeleteZone; Config has
--                  GetNodeDNSConfig. The parsers of
--                  Go's net package and the regular expression are the parameter `Platform`.
--   Route          internal/route and internal/storage/sqlite/{route,gateway,nodegroup}.go.
--                  Service has CreateRoute, UpdateRoute and DeleteRoute; Config has
--                  GetNodeRouteConfig and GetGatewayRouteConfig.
--   Cdn            internal/cdn/validation.go: validateSite, validateSiteUpdate, validateOrigin and
--                  what they call, with the resolver and the parsers of addresses as a parameter.
--   Leader         internal/ha/leader.go: the elector with its callbacks, and a step relation over
--                  several controllers and the database server. The advisory lock is the parameter
--                  `Locks`, with its documented behaviour as `Documented`.
--   Health         internal/routeserver/health.go: the health of routes, and UpdateTargets. Origins
--                  has internal/cdnserver/healthcheck.go. What a probe finds is a parameter.
--   DnsServer      internal/dnsserver: Records has convertRecord and the map of a zone, Zones has
--                  Reconcile and findZone, Query has handleQuery, Transfer has handleAXFR. Texts and
--                  parsers of addresses are the parameter `Texts`.
--   CdnServer      internal/cdnserver/cache.go: the LRU cache of responses, with its linked list in a
--                  store of pointers. Recency is what it promises, a list of responses; Put's loop
--                  has as fuel one round more than there are entries. DiskCache has the index and the
--                  count of bytes of internal/cdnserver/diskcache.go, without the files.
--   RouteServer    internal/routeserver/forwarder.go: Start, Stop and Reconcile with the sockets
--                  that they open and close. The network is the parameter `Os`.
--   Auth           internal/auth/token.go: Issue and Verify. Encodings, the HMAC, and the printers and
--                  parsers of UUIDs and numbers are the parameter `Codec`.
--   Secrets        internal/secrets/store.go and the encryption in internal/crypto/crypto.go. AES-GCM
--                  and base64 are the parameter `Cipher`.
--   Scenarios      the theorems and the definitions at concrete inputs.
--
-- Tables are lists of rows with a new row in front, and the order of `ORDER BY` is the parameter
-- `Sorting`, which returns the rows that it is given. A query by identifier takes the first match.
-- UUIDs are numbers, Go's `int` is ℤ, and an empty Go pointer is none. Loops run along a list;
-- the search for an overlay address has as its fuel the number of addresses and one. The limit of
-- 10000 rows, at which the services list records and routes, is in the model.
--
-- Steps of controllers are interleaved freely. Two requests that run at once are not: each
-- operation is one sequence of queries. Not modelled are the CDN service, the proxy of
-- the CDN server, the forwarder of gateways, the fleet service, and the listings for the API.
-- Configuration, logging, metrics, SSH, BGP sessions and the decoding of HTTP are left out, being
-- calls of libraries.
mod Prelude
pub mod Domain
pub mod Exec
pub mod Rbac
pub mod Dns
pub mod Cdn
pub mod Provisioning
pub mod Route
pub mod Leader
pub mod Health
pub mod DnsServer
pub mod CdnServer
pub mod RouteServer
pub mod Auth
pub mod Secrets
mod Scenarios
