-- ===== src/Lib.antt =====
-- The ePoxy boot server and its clients.
--
-- A machine that boots over the network asks the boot server for a script (stage1.ipxe or
-- stage1.json), then for the configurations of stage2 and stage3, and last reports success or
-- failure. The server finds the machine's Host record by its name, checks that the request comes
-- from the machine's address, and answers from the record. A client loads configurations, follows
-- their chains, evaluates them as templates and runs their commands.
--
-- Files, and the code that each models:
--   Base       shared names; byte strings (Base/Text), maps (Base/Dict), code that acts on a
--              world and may end early (Base/Exec), with invariants (`Keeps`) and triples for
--              both ends (Base/Exec/Ensures) and for a return (Base/Exec/Gives), and code that
--              may fail and does nothing else (Base/Fallible)
--   Go         what the code uses of Go's standard library: package strings, base64, hex, UTF-8,
--              the order of map keys in templates, fmt.Fprintf without operands, decimal
--              numbers (Go/Decimal), and JSON texts (Go/Json: what MarshalIndent writes, Reader and
--              Parse what Unmarshal accepts; Escapes, Quoted and Objects read back what is written,
--              Ends and Terminates show that the parser's fuel is enough)
--   Storage    storage/host.go (Host, Information, Sessions), storage/datastore.go and
--              storage/iface (Datastore; the laws of a client are in Datastore/Laws),
--              storage/extensions.go (Extensions), datastorex/propertymap.go (PropertyMap)
--   Extension  extension/request.go: Encode and Decode, and their round trip (RoundTrip);
--              cmd/example_extension_server/main.go (Service, Answers)
--   Template   template/template.go (Scripts), its kernel parameters (Kargs) and its HTML
--              escaping (Escaping)
--   Handler    handler/handler.go: Server has the environment, requests and replies; Access is
--              requestIsFromHost; Boot has GenerateStage1IPXE, GenerateStage1JSON,
--              GenerateJSONConfig and ReceiveReport; Proxy has HandleExtension and
--              HandleStorageProxy; Routes has the routes of cmd/epoxy_boot_server/main.go, with
--              newRouter in Routes/Router; Served follows an extension request to a service. Store
--              is the interface of the storage, Backend its implementation by Storage/Datastore;
--              Setup, Steps, Renewal, Recorded, Outcomes, Forwarding, SessionChecks, Answers and
--              Accepts have the proofs
--   Nextboot   nextboot/nextboot.go (Config) and nextboot/v1.go: Cmdline is ParseCmdline; Values
--              converts arrays; Load has loadAction, maybeLoadChain and the downloads;
--              Environment is updateCurrentEnv; Evaluate has the evaluations of variables, files,
--              environment and commands; Run has runCommands, Run and Report. Client is the state
--              of a client's process, Kept its invariant, Files the files that it makes, World what
--              it does to the world. Retry is cmd/epoxy_client/main.go, Retry/Ends its deadline,
--              Retry/Reboots its reboot
--   Metrics    metrics/metrics.go: the metrics' descriptions, NewCollector, Describe and Collect
--   Startup    cmd/epoxy_boot_server/main.go: Environ has the settings and init, Startup the
--              start of the servers and main
--   Admin      cmd/epoxy_admin/command: Tools has fmtURL, Create create.go, Sync sync.go, Update
--              update.go and list.go (Listing), Main root.go, delete.go and the flags' defaults;
--              Store has what they share in proofs
--   Certs      cmd/epoxy_certs: System has the libraries it calls, Reader and Files certutil.go,
--              Names addHostsToCertificate, Serial getSerialNumber, Basic getBasicCertificate,
--              Issue the creation of each kind of certificate, Main the command line and main
--   Migration  cmd/epoxy_update_dsentity/main.go
--   Tests      runs on concrete inputs, and instances of the theorems
--
-- State and errors. A handler is a function on the server's state (`Server`: the world behind it
-- and the stage1 counter); a step of a client is a function on `Client` (configuration,
-- environment, names of the files that exist, world). Both return an outcome, a value or an early
-- end, beside the state, so that what was done before an error stays done. A panic is such an
-- early end, and deferred code runs in either case. Names are in snake case:
-- `Env.requestIsFromHost` is `request_is_from_host`.
--
-- Maps are association lists whose order stands for the order in which a `range` loop meets the
-- entries, which Go leaves open; no order is assumed. Times are distances from the zero time. The
-- results of JSON decoding are values of `Config`, in which a number is the text that fmt prints
-- for it.
--
-- Parameters. Code outside the repository is a parameter with the laws that are relied on as
-- hypotheses: the Datastore client (`IsDatastore`), crypto/rand and the clock (`IsRuntime`),
-- net/url (`Net`), encoding/json for configurations (`Json`, `DecodesMaps`,
-- `DecodesFileMaps`), the texts of times (`TellsTime`), gorilla/mux (`Mux`), and text/template,
-- shlex, HTTP, grab, files and processes (`Machine`). The commands call siteinfo, regexp, GitHub
-- and fmt.Sprintf (`Tools`, with `IsAdministered`), crypto/x509, crypto/rsa, encoding/pem, the
-- clock and files (`System`, with `IsFileSystem`), what starts servers (`Services`, with
-- `IsAvailable`), and cobra, which finds a project and a command in the arguments. A storage is
-- anything with the laws `IsStore`; a save that fails may have been done or not.
--
-- Fuel. The loop of maybeLoadChain takes a number of rounds, since a chain may be circular; its
-- result says whether the loop has ended. Each link of a chain takes one round, and the end of
-- the chain one more, so where chains are not circular (`IsAcyclic`: URLs have a depth of at most a
-- bound, which goes down along every chain) one round more than the bound is enough. The loop of epoxy_client takes a number of rounds as well; 362 are
-- enough, since each but the last sleeps a minute and the deadline is six hours (`TimePasses`).
-- The reading of a JSON text takes three units for each byte and two more, which is enough for
-- every text.
--
-- Not modelled: logging, timeouts of requests, what TLS and metrics servers do, concurrent requests
-- (requests are handled one after the other), how cobra and package flag read a command line,
-- what prometheus does with a registered collector, and the limit of encoding/json on the depth of
-- a text.
pub mod Base
pub mod Go
pub mod Storage
pub mod Extension
pub mod Nextboot
pub mod Template
pub mod Handler
pub mod Metrics
pub mod Startup
pub mod Admin
pub mod Certs
pub mod Migration
pub mod Tests
