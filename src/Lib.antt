-- ===== src/Lib.antt =====
-- The fulfillment service: a gRPC service that stores clusters, hosts, virtual machines and their
-- templates in PostgreSQL. Each unary call runs in one transaction; the servers work through a generic
-- data access object, which applies the tenancy of the user, fires events and archives deleted
-- objects, and which translates the filters of list requests from CEL to SQL.
--
-- Which file models which part:
--   Common: shared types, tests on numbers and texts, lists, results, and methods that change a state
--     and may fail (Common.Exec).
--   Database: internal/database/database_tx_manager.go (Tx) and database_tx_interceptor.go
--     (Interceptor). A session is a managed transaction; the data is a parameter, and so are the
--     faults that the database may answer with. Triple has rules for pre- and postconditions of
--     methods, and Atomic what a call leaves in the database.
--   Dao: internal/database/dao/generic_dao.go, dao_events.go and dao_errors.go. Types has the
--     fields of GenericDAO as a record, Table the SQL statements as operations on lists of rows,
--     Metadata the helpers, Methods the methods get, exists, create, update and delete, Listing the
--     method list, Build the builder. The other children prove what these do. JSON encoding,
--     protobuf decoding, the CEL parser, the tenancy and attribution logic are parameters. A table
--     is a list of rows in no particular order; the order of identifiers is a parameter too, since
--     it is the collation of the database. What PostgreSQL does with `order by`, `offset` and
--     `limit` (order_by_id and page in Listing) and with the other statements follows its
--     documentation. Paging, Decoded and Walking are about a client that walks the pages. A
--     timestamp is its Unix time in seconds.
--   Filter: internal/database/dao/filter_translator.go. Syntax has the expressions and the translator's
--     results, Strings, Operators, Fields and Translate the functions. The arguments of a call are
--     translated once, before the call is looked at, and a result that the code would not compute is
--     not used. SQL text is a list of code points. Lexer and Closed describe how PostgreSQL splits
--     such a text into tokens, and Values how it reads its literals; Safe, Operations and Roundtrip have
--     the theorems, the others between them the lemmas.
--   Servers: internal/servers/generic_server.go. Generic has the five methods on top of Dao, each a
--     handler that calls methods of the DAO, which report their errors to the transaction; Request
--     puts the methods together. Compiled paths of field masks are the record Paths.
--     PathCache has the cache of the compiled paths, which the five methods do without, and Notified the
--     event that is published, one of the callbacks of the DAO.
--
--   Auth: internal/auth. Subject has the subjects and their context, Logic the tenancy and attribution
--     logic, Authn the authentication functions and the unary interceptor; Namespace, Tenants and
--     Headers have what these do. Regular expressions of public methods and the JSON decoder of the
--     subject header are parameters.
--   Utils: internal/utils/template_parameters.go (Templates), and Go's maps with text keys (Maps), as
--     lists of entries in the order of an iteration. Valid, Blame and Defaults have what the functions
--     do. A value of a map is never nil. Errors are data instead of texts.
--   Api: the messages of proto/private/v1 that the servers and controllers share. Enumerations are
--     numbers. Message has messages of any type as reflection shows them: the fields of the type in
--     order, each with its descriptor and its value, and what is documented of Has, Get, Set and Clear on
--     them; new messages of each type and the zero values of plain kinds are parameters.
--   Masks: internal/masks. Path has Get, Set and Clear of a path, which fail where reflection panics,
--     and Compiler the paths that texts stand for; Reading, Clearing, Typed, Got and Sound are about what
--     a path gets, Crashes about the paths that panic.
--   Servers, continued: internal/servers/private_clusters_server.go (ClusterChecks and Clusters) and
--     private_virtual_machines_server.go (Machines), which read templates in the same transaction
--     through Database.View; NodeSets, Conforming, Created and Defaulted have what they store.
--     internal/servers/events_server.go and private_events_server.go: Events has how an event goes to
--     the subscriptions, Delivered what they get, and Watching the goroutines with their lock and
--     channels as a step relation. The public servers (hosts_server.go and the files like it) and
--     the private servers that only call the generic one are in Public and PublicServers, Mapped
--     has what they answer and Processed that their mappers never fail. Secrets has the kubeconfig
--     and the password of a cluster (clusters_server.go), and Served where they come from. Mapper
--     is internal/servers/generic_mapper.go; MapperTypes has the types of messages, MapperKinds,
--     MapperSafe and MapperSound that the mapper keeps them, Copied and CopiedMaps what it leaves
--     in a message. The public servers use it on the fields that reflection shows of their objects;
--     the conversion is a parameter.
--   Controllers: internal/controllers/cluster, vm, hostpool and host. Kube has the Kubernetes
--     objects and what the clients of a run answer, Task and Tasks what the four reconciler
--     functions have in common, Orders and Hosts the messages of each. An object that has
--     finalizers is only marked when it is deleted, as Kubernetes documents. Once is about one run,
--     Runs about any sequence of runs, LostHub about a run whose last call fails, Conditions about
--     the default conditions. Only these runs change the Kubernetes objects, and one run ends
--     before the next begins. HubCache is the cache of the hubs, Reconciler the loops that put
--     objects into the channel and run the function on them, and Started what the loops do.
--
-- Recursion is structural, save for the digits of a number, which run on fuel: one unit more than the
-- number is enough, since each digit divides it by ten (Filter.Numbers).
--
-- Not modelled: logging, the generated API, the wiring of the commands, builders other than the one of
-- the DAO and of the mapper, and the database listener and notifier. The runs of a controller take
-- what the hub cache answers as a parameter.
pub mod Common
pub mod Database
pub mod Dao
pub mod Filter
pub mod Masks
pub mod Servers
pub mod Controllers
pub mod Auth
pub mod Utils
pub mod Api
