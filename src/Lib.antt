-- ===== src/Lib.antt =====
-- The OpenMVN services, a small mobile core of separate Go programs, as executable definitions.
--
-- The program's parts. A base station (gnb-sim) registers UEs at the AMF (amf), which checks their
-- credentials in a table of its own, stores a context per UE and publishes an event; the UDM (udm)
-- answers the same question over HTTP. The SMF (smf) asks the UPF (upf) over PFCP for a session per
-- UE; two further designs of the SMF are in the repository, a GTP-C server (cmd/smf) and a library
-- that keeps its sessions in Redis (pkg/smf). The BSS (bss) keeps the subscribers and their
-- balances, and the receiver of IMSI switches (imsi-switch-receiver) keeps the decisions that
-- devices have to answer. The services share no memory: they meet at messages and events.
--
-- Which file models what.
--   Common      native numbers, lists, association lists for Go maps, decimal text (strconv), 64-bit
--               integers, HTTP responses and clock readings
--   Bss         bss/main.go: register_handler, top_up_handler, get_subscriber_handler, health_handler,
--               recovery_middleware; Bss/Ledger compares the table with a ledger of one account,
--               Bss/Middleware puts the handlers behind the two middlewares
--   Events      amf/publisher.go and its copy smf/publisher.go
--   Amf         amf/main.go: Amf/Store the UEStore, Amf/Auth the table and getAuthReason, Amf/Ngap the
--               loop handleNGAP, in Amf/Ngap/Interleaving with its goroutines as steps, which
--               Amf/Ngap/History puts into an order, and Amf/Api the management handlers GetUE,
--               DeleteUE and ListUEs
--   Udm         udm/main.go: authHandler; Udm/Middleware the two middlewares
--   ImsiSwitch  imsi-switch-receiver/main.go: the subscription and the routes; the map holds pointers
--               into a heap, since a GET reads its decision after the lock has been released
--   Pfcp        the PFCP messages that smf/main.go and upf/pkg/upf/upf.go build and read
--   Upf         upf/pkg/upf/upf.go: the message handlers and servePFCP; Upf/Interleaving the handler
--               goroutines as steps, Upf/Lifecycle Run and Close, Upf/UserPlane NewUPF and the GTP-U
--               server; Upf/Linear compares the goroutines with a loop, Upf/Orders has messages in
--               another order, Upf/Widths the widths of Go's numbers
--   SmfServer   cmd/smf/main.go: SmfServer/Ip nextIP, SmfServer/Pool initIPPool, SmfServer/Manager the
--               session manager and its mutex, SmfServer/Handlers the GTP-C handlers,
--               SmfServer/Allocation repeated calls of allocateIP
--   SmfSession  pkg/smf/session.go: the session manager and its handlers; SmfSession/Refinement compares
--               them, on a Redis that works, with a specification of one IMSI;
--               SmfSession/Interleaving splits a handler into its read and its write, and
--               SmfSession/Races shows what two handlers for one IMSI at once can do,
--               SmfSession/Serial what handlers do that only overlap for different IMSIs;
--               SmfSession/Expiry counts down the 24 hours that Redis keeps a session for
--   Smf         smf/main.go: the PFCP client and the route /gtpc/v1/create-session; Smf/Attach and
--               Smf/Sessions put it together with the UPF; Smf/Concurrent has calls that run at
--               once on the one socket of the client, with a network that loses datagrams
--   Gnb         gnb-sim/main.go: one registration; Gnb/Exchange puts it together with the AMF,
--               Gnb/Shutdown runs it call by call beside the goroutine that handles a signal
--   Ocs         ocs/publisher.go and the loop of ocs/main.go; Ocs/Deductions says what it
--               puts on the bus and logs
--   Services    the main functions of bss, udm, amf, smf, cmd/smf, imsi-switch-receiver, upf and ocs:
--               Services/Process a Go process with its open resources and deferred calls, Services/Mains
--               the functions, Services/Exits how they end
--   Containers  integration_test/containers.go, the manager of the test containers; Containers/Probes
--               compares its health probes with what the processes of Services serve
--
-- How the code corresponds to the definitions. A struct is a record, a Go map an association list,
-- a handler a function from the state and what it reads to the state and the response. Numbers are
-- natural numbers; an int is the 64-bit word that represents it, with its wrap-around written out.
-- A body that a mutex covers is one step; Upf/Interleaving, Amf/Ngap/Interleaving,
-- SmfSession/Interleaving, Smf/Concurrent, ImsiSwitch/Trace and SmfServer/Manager say what lies
-- outside or waits.
-- The readings of time.Now, new UUIDs, and whether a write succeeds are arguments of a handler.
-- Code of third parties is a parameter: the ASN.1 codec of the AMF, json.Marshal of the publishers,
-- Redis and JSON of pkg/smf (with the laws named in SmfSession/Store), PFCP and GTP-C encodings of
-- smf. Which calls of a main function or of Docker succeed is an argument.
--
-- Fuel. pool_from takes fuel for the loop of initIPPool: 256 for the pool of the server, more than
-- the 253 addresses between its bounds. run of Gnb/Shutdown/Run takes a number of calls: main makes
-- at most six before it ends or stays in its select. Everything else recurses on its data.
--
-- Not modelled: the values of the configuration, timeouts, logging apart from the lines of the
-- middlewares, and metrics; the Redis clients of amf, bss, ocs, smf and udm, copies of the one of
-- upf that no main function calls; the test programs. The subscriptions to ue.registered in bss and
-- smf only log what they receive. A signal arrives at a service of Services, if at all, once it is up;
-- Gnb/Shutdown lets it come at any time. A deadline of smf is a step that can always happen to a call that
-- waits; the 24 hours of a session of pkg/smf are counted down in SmfSession/Expiry only.
pub mod Common
pub mod Bss
pub mod Events
pub mod Amf
pub mod Udm
pub mod ImsiSwitch
pub mod SmfServer
pub mod SmfSession
pub mod Smf
pub mod Pfcp
pub mod Upf
pub mod Gnb
pub mod Ocs
pub mod Services
pub mod Containers
