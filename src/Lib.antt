-- ===== src/Lib.antt =====
-- runkube: a Kubernetes control plane in one binary. This library models parts of it and proves what
-- makes them correct.
--
-- pkg/cri, a CRI runtime that simulates pods:
--   Cri/Objects     the messages of the CRI API that pkg/cri reads and makes.
--   Cri/Model       pkg/cri/model/model.go: the maps (`Store`), the filters (`Match`) and the getters.
--   Cri/Runtime     the same file: `Enqueue` and `runSimulation`. A round of the simulation is `tick`;
--                   `Enqueue` blocks, so a call of it is the ticks until its channel is closed.
--   Cri/Service     replies, gRPC codes and the chain of a handler's steps; `uniqID`.
--   Cri/Sandboxes, Cri/Containers, Cri/Images   the handlers of pkg/cri/cri.go, with the callbacks that
--                   they enqueue as definitions of their own (`make_ready`, `stop_sandbox` and so on).
--   Cri/Consistent, Cri/Transitions, Cri/Exits, Cri/Sound   well-formed maps, and what each callback
--                   does to them.
--   Cri/Laws        each handler on every branch. Cri/History: lists of calls.
--   Go's maps are association lists in the order of insertion; a getter that picks one of several
--   matches picks the first. A call runs to its end before the next begins. The clock is a function
--   from the number of the reading to the time. Label selectors and the format of times come from
--   other packages and are a parameter (`Externals`). `wait` has fuel for two rounds more than the
--   delay, and `enqueue_returns` shows that it is enough.
--
-- pkg/sandbox/fdchan/fdchan.go, requests and file descriptors over a socket:
--   Fdchan            messages, `AddDescriptor` and `GetDescriptor`. Fdchan/Descriptors: their laws.
--   Fdchan/Wire       `writeWire`, `readWire`, `parseFDs`. JSON, control messages and the socket are the
--                     parameter `Platform`; Fdchan/Wire/Laws states what it is documented to do, short
--                     reads included.
--   Fdchan/Mux        the multiplexer: `Request`, `readLoop`, `receiveRequest`, as steps on one state.
--                     Fdchan/Mux/Laws, Histories and Ended are about lists of such steps,
--                     Fdchan/Mux/Replies about both sides.
--   A sequence number wraps at 2 ^ 64; the theorem on histories is for fewer steps than that.
--
-- pkg/server and pkg/frontend, the HTTP front:
--   Server            pkg/server/server.go: `loggingResponseWriter`, `WithLogging`, `WithMatchingHost`.
--                     Server/Writer is about the calls of a handler on the writer, Server/Hosts about
--                     the requests that are let by.
--   Frontend          pkg/frontend/server.go: `Register`, `ServeHTTP`, `AddConn`, `Accept`. The answers of
--                     `Hijack` and `Close` are fields of the request. Frontend/Registry and
--                     Frontend/Queues hold the laws. Connections are numbers.
--
-- webhook.go and pkg/webhook/webhook.go, the webhooks that the API server asks:
--   Webhook           `builtinAuthorizer`, `userInfoLogValue` and the result in `sarLogValue`.
--                     Webhook/Decisions: who is allowed what. Webhook/Names: who is named
--                     in the logs.
--   Webhook/Handlers  the handlers, on a decoded review, and `writeStatus` and `encode` on a response that
--                     sends its first status and the headers set by then, as net/http does.
--
-- pkg/sandbox/sandbox.go and pkg/sandbox/procfs/procfs.go, the sandbox of a node:
--   Sandbox           the steps of the set-up with `lastError`. What the system answers to a call, by the
--                     calls before it, and the functions of filepath are the parameter `System`.
--   Sandbox/Run       `run`: the requests of the parent, then all steps. Sandbox/Run/Setup, Complete and
--                     Endings are about the order of the calls, Sandbox/Run/Commands about the requests. The
--                     loop over requests is a function of the list of requests, with whether each
--                     answer was sent.
--   Procfs            `Getattr`, `Open`, `Readlink` and `Read`; what the real /proc answers is a parameter.
--                     `read_all` has fuel for one read more than the content has bytes.
--
-- pkg/resolve/resolve.go:
--   Resolve           `Resolve`, with the consumer as a function of what it was given so far.
--
-- controlplane.go, comps.go, api.go and the rest of the root package, the control plane itself:
--   Disk              the files that Go's `os` package reads and writes: their bytes by path, and the
--                     paths where a write fails. A failed write leaves the file as it was.
--   Pki               pki.go: `pkiRef`. Pki/Authorities: `clamp`, `certificateForRequest`, `Sign`, `Init`
--                     and `Certificate`. crypto/x509, encoding/pem and crypto/ecdsa are the parameter
--                     `Crypto`, what their random calls give and the readings of the clock `Chance`;
--                     `IsCrypto` says that what was encoded is read back. Pki/Toy is a small instance
--                     of both for runs. Messages of errors are kept without their arguments.
--   Jwks              plugins.go: `jwksRef`. Jwks/Signer: `jwtsigner`. Jwks/Kms: `kms`. The texts of
--                     keys, the signatures and the encryption are the parameters `Jose`, `Signing` and
--                     `Jwe`. Jwks/Stored, Laws, Signatures and Sealed are about the three.
--   Ref               pkg/ref/ref.go: `Config.Write`, `KubeConfig.Write` and `WriteObject`.
--   Kapi              pkg/kapi/kapi.go: the groups and what is told of them. Kapi/Routes: `Install` and
--                     `NewAPI`, with the routes as a list of patterns and handlers. The mux panics on an
--                     equal pattern; other overlaps of patterns are left out. Kapi/Registration and Laws
--                     are about the routes.
--   ControlPlane      the names, addresses and paths. Requests: the certificates that `Init` asks for
--                     and `CA`. Configs: the files with settings, Configs/Webhooks webhook.go's
--                     `makeAdmissionWebhook`. Init: `Init`, with the state as a `Machine` of a disk, the
--                     authorities so far, the draws so far and the objects for the syncer.
--                     Processes: the arguments of the processes of `Run`. Commands: `KubectlExec`,
--                     `CurlExec`, `EtcdCtlExec` and `makeSafeEnv`. The texts of JSON and YAML and the
--                     functions of the base64 and filepath packages are the parameter `World`. An object
--                     of Kubernetes has the fields that the code sets.
--                     ControlPlane/Laws goes from one step of `Init` to the files that the processes
--                     are told of (Started), to its panics and to the environments of the commands.
--
-- pkg/config, pkg/nodes and tools/runkube, the command lines:
--   Flags             pkg/config/config.go: `Parse`, `Validate`, `generateULA`. pflag, net/netip,
--                     crypto/sha256 and the environment are the parameter `Platform`; the regular
--                     expression of names is written out.
--   Nodes             pkg/nodes: the node of `RunNode`, its files, processes and sandbox, and the choice of
--                     `Main`. `RemoveAll` is a parameter.
--   Main              tools/runkube/main.go: which part of the program a command line runs, by name.
--                     Main/Laws is about the processes that run this program again.
--
-- tools/quotable/main.go:
--   Quotable          the events of the informers, the index functions, `Count` and its route,
--                     `transformFunc` and `getResources`. The index of package cache is the parameter
--                     `Indexer`, and `IsIndexer` what is documented of it; Quotable/Table is one.
--
-- tools/requestor/requestor.go:
--   Requestor         `ToRESTRequest` and what `DiscoveryExpandor` yields. `ToLower` and
--                     `ParseGroupVersion` are parameters.
--
-- Common passes on the names of the libraries and holds Boolean tests, list and text helpers, signed
-- numbers for durations, and the association lists that stand for Go maps. Not modelled: the start of
-- processes and servers (`Run`, `RunWebhook`, `RunCRIServer`), the requests of the client of pkg/ref,
-- the byte copies of the proxy of pkg/sandbox, the log entries, and tools/isolated.
pub mod Common
pub mod ControlPlane
pub mod Cri
pub mod Disk
pub mod Fdchan
pub mod Flags
pub mod Frontend
pub mod Jwks
pub mod Kapi
pub mod Main
pub mod Nodes
pub mod Pki
pub mod Procfs
pub mod Quotable
pub mod Ref
pub mod Requestor
pub mod Resolve
pub mod Sandbox
pub mod Server
pub mod Webhook
