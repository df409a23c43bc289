-- ===== src/Lib.antt =====
-- The verification of internal/ of the notation verifier, the backend that Kyverno asks whether
-- the images of a pod are signed.
--
-- The program. Kyverno posts a pod's images and a policy to /checkimages (internal/verifier/client.go).
-- The handler reviews the caller's token, checks the request (internal/verifier/request.go), and
-- verifies it (internal/verifier/verify.go): the images that the references select go to notation,
-- with the verifier of the request's trust policy, and each verified image must carry the
-- attestations that the policy asks for. What was verified is cached (internal/cache/client.go).
-- The verifiers are read from the trust policy files (internal/notationfactory), again whenever a
-- policy changes; the cache is cleared then. Credentials come from keychains
-- (internal/verifier/auth.go), one of which caches what a provider granted (keychain.go).
--
-- The model. Code that can fail over the shared state is an `Exec` over the `World`: the cache's
-- store, the verifiers by trust policy, and a count of the calls that have left the process. An
-- error is its text, and what was written before an error stays. Go strings are lists of code
-- points, Go maps association lists, and a `range` visits the keys in an order that a parameter
-- chooses at each loop. All loops run over lists and need no fuel.
--
--   Prelude: strings, maps, results, `Exec` and the rules for its invariants.
--   Types: internal/types/types.go.
--   Deps: the libraries, as records of operations, with the laws that the theorems use: ristretto
--     returns only what was set under a key and not cleared since, a `range` visits each key once,
--     and an assigned field is read back.
--   World: the shared state.
--   Request, Response, Config, Auth, Cache, Keychain, Factory: the files of these names, and the
--     options of internal/verifier/client.go in Config. Factory.Refresh reads the trust policy files.
--   References: the functions of internal/verifier/verify.go on references and attestation types.
--   Verify: the rest of that file, over the `World` and the response under construction, which an
--     error leaves as it is by then; Verify.Registry talks to registries, Verify.Images and
--     Verify.Attestations verify, Verify.Evidence says what "verified" means, Verify.Sound and
--     Verify.Outcome hold the proofs.
--   Handler: HandleCheckImages, authenticate and UpdateNotationVerifier of internal/verifier/client.go.
--   Flags: the options of main.go with effectiveLogLevel and cacheTTL, and splitList of utils.go.
--   Disk: files and directories by path, each system call of which may fail; Disk.Paths is
--     filepath.Join.
--   Controller: internal/kubenotation/controller. Controller.Files is files.go, Controller.Policies
--     and Controller.Stores.Defs are the two reconcilers, Controller.Cluster is their API server, and
--     the modules below them hold the proofs. Both work on a `Machine`: the disk, the channel of
--     CRDChangeInformer, and the objects that were sent to the API server.
--   Startup: NewVerifier and newVerifier, and in Startup.Flags the arguments that `run` gives them.
--   Service: the loop of `run` in main.go and the requests between its rounds, as a step relation
--     over the `World`; Service.Refines has the machine that it refines.
--   Tls: the callback of newTLSConfig in main.go.
--   Tests: a small world to which the theorems are applied.
--
-- The bounds of the code are 256 registries for credentials, and the configured number of cache
-- entries, which ristretto keeps. `maxSize * 10` wraps at 64 bits as in Go.
--
-- Not modelled: logging, contexts and deadlines, the reading of the body and the writing of
-- headers, the informers and the shutdown of clients and servers, the leader election and the
-- renewal of certificates, parseFlags, the logger of utils.go, internal/setup,
-- internal/kubenotation/manager.go, and the generated copies of the API types. Requests and updates
-- run one after the other here, in any order, while the program runs them concurrently:
-- `ristretto`'s calls and the verifiers' lock are each one step, but an update between the steps of
-- one request is not covered. The reconcilers and the service meet in the notification and in the
-- files, which the service reads through parameters.
pub mod Prelude
pub mod Types
pub mod Deps
pub mod Request
pub mod Response
pub mod World
pub mod References
pub mod Config
pub mod Disk
pub mod Auth
pub mod Factory
pub mod Verify
pub mod Cache
pub mod Handler
pub mod Controller
pub mod Keychain
pub mod Flags
pub mod Service
pub mod Startup
pub mod Tls
mod Tests
