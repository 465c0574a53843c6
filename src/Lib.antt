-- ===== src/Lib.antt =====
-- The dbaas-controller: a Kubernetes controller that gives Lagoon projects databases on shared
-- database servers. A DatabaseRequest asks for a database; its reconciler chooses a connection of
-- a RelationalDatabaseProvider, lets the database client create the database and its user, writes
-- the connection data into a service and a secret, and takes all of it away when the request goes.
--
-- Files and code:
--   Prelude     integers, Boolean tests and texts (strconv.Atoi, %d, strings.Contains, ToUpper)
--   Go          error values with %w, and results that are values, errors or panics
--   Api         api/v1alpha1/*_types.go, and the Kubernetes objects as far as they are used
--   Database    internal/database/database.go, the client of the relational servers, and mock.go (Mock): Server (the package
--               database/sql and the servers as a parameter Sql, the cache, GetConnection), Monitor
--               (Ping, Version, Load, Initialize), Users (GetDatabaseInfo, SetDatabaseInfo), Databases
--               (CreateDatabase, DropDatabase), Operations (all of them in sequence); Credentials and
--               Bytes have the random credentials, also of internal/database/mongodb/mongodb.go; Cache,
--               Asks, Talk, Registry, Ensure, Refines, Created, Refusals, Unsupported and Lengths are about them
--   Mongo       internal/database/mongodb/mongodb.go, and mock.go (Mock): Driver (the MongoDB driver and the servers as a
--               parameter), Client (all operations of the client); Users is the collection of the users
--               in general, and Options, Growth, Created, Drops, Dropped and Stuck are about the
--               operations
--   Cluster     what the controllers call. An Env is any behaviour of the Kubernetes client, the
--               database client, the recorder and the metrics: each answer depends on the call and
--               on the history of calls before it, so it covers failures at any point and writes of
--               others. A Run is the object that the reconciler holds and the history. The children
--               have the rules for assertions on runs (Triple, Failing), for the calls that a run may
--               make (Order), for what holds of the calls since its start (Since) and of the object (Held), and for runs that return
--               where each call is answered (Returning).
--   Conn        reldbConn and getDSN of
--               internal/controller/relationaldatabaseprovider_controller.go
--   Request     internal/controller/databaserequest_controller.go, by parts: Faults (handleError,
--               promLabels, errTypeToEventReason of metrics.go), Info (dbInfo), Providers
--               (findRelationalDatabaseProvider, relationalDatabaseInfoFromSeed), Operation
--               (relationalDatabaseOperation, createDatabase, relDBInfo, relDBDeletion),
--               Resources (handleSeed, handleService, handleSecret), Deletion (deleteDatabase),
--               Reconcile (Reconcile) and Locks (lock, unlock, and workers in parallel, in steps). Serving, Asked,
--               Search, Reference, Served, Written and Succeeds are about a cluster that answers, Settled
--               and Observed about the end of a reconciliation; the other children are
--               about calls and outcomes.
--   Provider    the rest of internal/controller/relationaldatabaseprovider_controller.go: Faults
--               (handleError), Connections (the two loops of Reconcile) and Reconcile; Checked, Names
--               and Ready are about its success, Statuses about the statuses
--   MongoProvider  internal/controller/mongodbprovider_controller.go: Faults (handleError), Connections (the
--               two loops of Reconcile) and Reconcile; Checked and Ready are about its success, Released
--               about deletion
--   Main        cmd/main.go and the SetupWithManager of the three reconcilers: the steps to the start of
--               the manager; Steps and Started are about them, Clients has the clients that the reconcilers are given,
--               and Unserved is about the one without a client
--   Tests       a sample cluster, and the theorems at concrete input
--
-- A function of the Go code that holds the request by pointer is a program on the Run's object: it
-- reads the object again after each call that may have written it. r.Update and r.Status().Update
-- write the object, and the environment says what they write. Two pointers to one reference are two
-- equal values: no code writes through them. A nil pointer is `none`, and reading through it is the
-- result `panic`. The loops are recursions on lists. Only printing a number recurses on fuel, the
-- number itself plus one, which is more than its digits. Loads and ports are integers that no code
-- here adds up, so an int never overflows.
--
-- Parameters, not modelled: the API server and its client, the drivers, the metrics, the title
-- casing of golang.org/x/text, go-cmp, and the functions on conditions and finalizers; for the database
-- client the package database/sql, its drivers and the servers. A law of IsTable is what their
-- documentation says of a statement on the table of the users, and a law of IsCollection or HasAccounts
-- what MongoDB's says of a call on the collection of the users. A law of KeepsNames is that the API server
-- changes no name, namespace, service name or type of a request that is written. Logging has no effect here and is left
-- out. A mutex of the package sync is locked or not, and its Lock waits while it is. For the start
-- the package flag, the schemes, the metrics registry and the manager of controller-runtime are the parameter
-- Host. Not modelled: the generated deep copies, and the nil handles that the mocks of GetConnection and
-- GetClient give.
pub mod Prelude
pub mod Go
pub mod Api
pub mod Database
pub mod Mongo
pub mod Cluster
pub mod Conn
pub mod Request
pub mod Provider
pub mod MongoProvider
pub mod Main
pub mod Tests
