-- ===== src/Lib.antt =====
-- Model Hub: a verification library for the control plane, its packages and the web interface in
-- TypeScript, and for the agent in Go.
--
-- A fleet of machines runs an agent each. An agent enrolls its machine with a pairing code and a
-- public key, then keeps a stream open on which it reports devices and samples; the control plane
-- keeps the fleet in Postgres, one organization hidden from the other by row-level security; a timer
-- marks silent nodes; the web interface reads views of nodes with memory budgets.
--
-- Memory       packages/core/src/memory.ts: `computeBudget`. Floating-point products are the
--              parameter `Floats`, of which two laws are asked: a fraction of at most one gives no
--              more than the whole, and a larger fraction gives no less. Memory/Exact meets them.
-- Proto        proto/modelhub/v1, as packages/proto-ts/src/gen has it in TypeScript.
-- Schema       packages/db/src/schema: the rows of nodes, devices, pairing codes and organizations.
-- Storable     packages/db/src/schema/fleet.ts and `recordSamples`: the values that the columns of
--              nodes, devices and pairing codes do not take, for which a statement fails: an index
--              or a number of cores of 2 ^ 31 or more, a byte count of 2 ^ 63 or more, a NUL in a
--              text, and a time that is no date. Which dates driver and database take is part of
--              `Sql`. Pairing, Enrollment and Inventory test for them before they write.
-- Sql          what drizzle and Postgres do for each kind of statement, as an interface with laws;
--              Sql/Reference meets it with plain lists.
-- Tenancy      packages/db/src/client.ts and migrations/0001_roles_and_rls.sql: `withOrg`;
--              Connection has the setting on a pooled connection, with Postgres as an interface.
-- Env          apps/control-plane/src/env.ts: the settings that the rest reads.
-- Wire         apps/control-plane/src/domain/wire.ts: names of enums, columns and views.
-- Inventory    apps/control-plane/src/domain/nodes.ts: `markNodeOnline`, `recordInventory` and
--              `recordSamples`, each one transaction: an error leaves the database as it was.
-- Pairing      apps/control-plane/src/domain/pairing.ts: codes, their hashes, minting, redeeming.
-- Enrollment   apps/control-plane/src/domain/nodes.ts: `enrollNode`. What other sessions commit
--              between its statements is an argument.
-- Sweeper      apps/control-plane/src/jobs/offline-sweeper.ts: `sweepOfflineNodes`.
-- Uuid         packages/db/src/client.ts: `isUuid`.
-- NodeAuth     apps/control-plane/src/rpc/node-auth.ts: the signed header of a node. `Platform` is what
--              it uses of JavaScript, node:crypto and Postgres, `Redis` its SET with NX and PX;
--              NodeAuth/Reference meets both.
-- Rpc          the errors of a call.
-- Session      apps/control-plane/src/auth/session.ts; Better Auth is the parameter `Auth`.
-- FleetService apps/control-plane/src/rpc/fleet-service.ts: the calls of users.
-- NodeService  apps/control-plane/src/rpc/node-service.ts: the calls of agents; a stream is the list of
--              its messages, each a transaction of its own.
-- System       the control plane as a whole: every statement or transaction that a call or the sweeper
--              runs is a step of the database, in any order; WellFormed is what the tables keep.
-- Pairing/Race domain/pairing.ts: any number of redemptions at once, statement by statement.
-- Account      apps/control-plane/src/auth/auth.ts: ids and a user's own organization; Better Auth is
--              the parameter `BetterAuth`, from which a session's `Auth` is built.
-- Server       apps/control-plane/src/server.ts: error handler, /healthz, /api/me.
-- Web          apps/web/src: Format is format.ts; Bar, Card, Fleet, Dialog, AuthForm and Root are
--              components/DeviceMemoryBar.tsx, NodeCard.tsx, routes/fleet.tsx,
--              components/AddNodeDialog.tsx, routes/auth.tsx, and routes/root.tsx with router.tsx.
--              The rounded percentage of a bar's segment, a product and a quotient of doubles, is
--              the parameter `Ratio`. The state of a component is a record, a handler a function,
--              and the user's and the server's acts are steps.
-- Number       a number as text, as JavaScript and Go print it.
-- Agent        agent: Machine is the keychain and the files that it keeps, as interfaces with laws;
--              Identity, Commands are internal/config and cmd/agent/main.go; Header, Session, Wire are
--              internal/transport/client.go, session.go and proto.go; Inventory is
--              internal/inventory/inventory.go. Fresh, Joined, Session/Stored and
--              Session/Pace put the agent before the control plane. A connection is a script of
--              what its calls return. A backoff wraps around at 64 bits; up to 2 ^ 61 nanoseconds
--              its double does not.
-- Base, Result are shared helpers; Fixture and the modules named Tests hold concrete runs.
--
-- A state is a `Db`, the lists of rows of the tables; an operation takes the state and returns the
-- new one with its answer; an exception is a value of a result type. Each clock reading is an
-- argument of its own, in whole milliseconds. The ids that the database makes up are arguments.
-- Numbers are natural numbers or the integers of Base/Int: the byte counts of the source are exact
-- in a double up to 2 ^ 53, and its clocks are integers. All loops are over lists but the
-- printing of a number, whose fuel is the number itself: it has fewer digits.
--
-- Not modelled: the agent's probes, its service managers and its command line; Better Auth and its
-- tables; the start of the server and its shutdown; the parsing of its settings; the layout of the
-- web interface, React and the router; generated protobuf clients; loss of the database or of
-- Redis; a NUL in a text that is only looked up. The HMAC, the case mapping of Unicode and the
-- random numbers are parameters.
pub mod Base
pub mod Memory
pub mod Proto
pub mod Schema
pub mod Wire
pub mod Sql
pub mod Storable
pub mod Env
pub mod Fixture
pub mod Result
pub mod Tenancy
pub mod Inventory
pub mod Pairing
pub mod Enrollment
pub mod Sweeper
pub mod Uuid
pub mod NodeAuth
pub mod Rpc
pub mod Session
pub mod FleetService
pub mod NodeService
pub mod System
pub mod Web
pub mod Number
pub mod Agent
pub mod Account
pub mod Server
