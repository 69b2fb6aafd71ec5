-- ===== src/Lib.antt =====
-- The control plane of a zero-trust VPN: it decides who may reach what, enrolls devices, keeps their
-- mesh, rolls firewall policies out to them, watches their signals and contains them.
--
-- Parts. The services share the tables of one Postgres database: Store is that state, as lists of rows,
-- with the clock reading and the supply of random identifiers; Store/Repositories, Store/Commands,
-- Store/Rollouts, Store/Desired, Store/Outbox, Store/Certificates and Store/MemoryRollouts are the
-- queries (src/infrastructure/postgres/repositories.ts, services/mesh-controller/pg-command-queue.ts,
-- src/infrastructure/pg-rollout-store.ts, services/mesh-controller/pg-desired-state-store.ts,
-- src/infrastructure/postgres/outbox.ts, services/trust-core/pg-certificate-store.ts,
-- src/infrastructure/in-memory-rollout-store.ts). A handler is a function on the store that returns a
-- value or an error (Store/Monad); a throw keeps earlier writes.
--   Domain         src/domain/types.ts, src/domain/errors.ts
--   Policy         src/application/policy.ts; Policy/Compiler: src/application/policy-compiler.ts
--   Jit            src/application/jit.ts
--   Audit          src/application/audit.ts, one writer after another; Audit/Races: two at once
--   Enforcer       src/infrastructure/pg-policy-enforcer.ts
--   SafeApply      src/application/safe-apply.ts, which stages, commits and rolls back by the Enforcer
--   Heartbeat      src/application/heartbeat.ts
--   Response       src/application/threat-response.ts
--   Threat         services/threat-engine: scores, the engine and its ports, the windows of signals
--   Enrollment     src/application/enrollment.ts, services/trust-core/issuer.ts
--   KeyRotation    src/application/key-rotation-scheduler.ts, its ledger in services/mesh-controller
--   Mesh           src/application/relay-routing.ts, services/mesh-controller/controller.ts,
--                  services/relay-fleet/pg-relay-store.ts
--   Reconciliation src/application/node-reconciliation.ts
--   Rest           src/api/rest: Rest/Path, Rest/Http and Rest/Router (the templates of paths, the body,
--                  the errors, `RestRouter.handle`), Rest/Metrics, and what the router calls: rate
--                  limits, replay guard, idempotency keys, bearer tokens
--   Api            src/runtime/production-server.ts: Api/Routes is the table of routes, the other files
--                  are the handlers, which call the parts above and below
--   Soc            apps/security-soc/backend.ts, apps/security-soc/pg-soc-actions.ts,
--                  src/application/soc.ts
--   Maintenance    src/runtime/maintenance-worker.ts: the turns of its loops over Reconciliation, KeyRotation,
--                  Store/Outbox and Audit
--   Clearance      integrations/diagnostics-clearance.ts, src/application/integrations.ts: the token that a
--                  restoration asks for, a parameter of Response
--   Recovery       services/oob-controller
--   Relay          services/relay/relay-server.ts
--   Agent          src/agent/reconciler.ts; Agent/Production: agents/shared/production-agent.ts, the loop
--                  of an endpoint, and Agent/Production/InSync and Corrections what it and Reconciliation
--                  agree on
--   Native         native/linux/adapter.ts, native/windows/adapter.ts: what an endpoint does to its machine
--   Egress         services/egress/selector.ts, services/egress/pg-egress-store.ts
--   Dns            src/application/dns-protection.ts, services/dns/resolver.ts
--   Grpc           src/api/grpc/server.ts: the registration of a node, the rotation of its key and the
--                  stream that delivers its commands
-- Json is the payload of commands and events; Base holds the shared helpers.
--
-- Numbers are naturals; times are milliseconds; percentages and scores that the code computes in
-- floating point are fractions compared crosswise. The polling loop of SafeApply runs on fuel, and what
-- other processes do meanwhile is a schedule, an argument. The address loop runs over its 65532 numbers.
--
-- Not modelled: constraints of uniqueness that a write could break (the keys and addresses of nodes, the hash of
-- an audit row, the second acknowledgement of a command, two rotations at once), sockets, the HTTP and gRPC
-- transports, cryptography (hashes, signatures and certificates are parameters), the database driver, migrations and retention, which are SQL, process start-up and
-- configuration, the Apple adapter, which throws on every call, and plain reads for the console. In the
-- table of routes the full snapshot, the rollout of policies, the recovery routes and the two public
-- documents are parameters.
pub mod Base
pub mod Json
pub mod Domain
pub mod Store
pub mod Policy
pub mod Jit
pub mod Audit
pub mod Enforcer
pub mod SafeApply
pub mod Threat
pub mod Heartbeat
pub mod Response
pub mod Soc
pub mod Native
pub mod Maintenance
pub mod Clearance
pub mod KeyRotation
pub mod Mesh
pub mod Enrollment
pub mod Reconciliation
pub mod Rest
pub mod Api
pub mod Recovery
pub mod Relay
pub mod Agent
pub mod Egress
pub mod Dns
pub mod Grpc
pub mod Tests
