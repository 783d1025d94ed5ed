-- ===== src/Lib.antt =====
-- A verification library of the builder: the SSH server that takes pushes, the Git repositories
-- it serves, the hook that builds each push in a cluster, and the server of archives and slugs.
--
-- `main` runs one of two commands. `server` starts the fetcher and runs the boot route, which
-- makes and reads the host keys, and then the SSH service. A client connects over SSH with a key,
-- which the route `pubkeyAuth` compares with the one in a file. `answer` takes the requests on a
-- channel and has the router run a Git command, which is routed to `Receive`, which cleans the
-- name of the repository, makes the repository and its hook and runs `git-shell`. The hook runs
-- the program again, as `git-receive`: `Run` reads the lines of the push, and `build` archives
-- each new revision, starts a pod that builds it, waits for its end, looks at its exit codes and
-- starts the pod of the application. The pods get and put the archives and the slugs over HTTP,
-- from the fetcher.
--
-- The files and the code:
--   Main: boot.go, `EnvConfig` of pkg/conf/config.go and pkg/sshd/config.go.
--   Boot: pkg/builder.go; Boot/Signal: what a signal stops. Commands: pkg/commands.go.
--   Routes: pkg/routes.go, with Cookoo for what it uses of the library of routes; Routes/Auth and
--   Routes/Request: a login and a push through them.
--   Environment: pkg/env/envvar.go. Conf: `GetBuilderKey` of pkg/conf/config.go.
--   Git/RepoName: `cleanRepoName` of pkg/git/git.go, and the path and the command that `Receive`
--   makes of its result; Git/Repo: `createRepo` and `createPreReceiveHook`; Git/Receive: `Receive`.
--   Sshd/Fingerprint and Sshd/Keys: `Fingerprint`, `compareKeys` and `AuthKey` of
--   pkg/sshd/sshd.go; Sshd/HostKeys: `ParseHostKeys` and `GenSSHKeys`. The loop of the fingerprint
--   stands a second time in pkg/controller/utils.go.
--   Sshd/Server: `answer`, `cleanExec` and `sendExitStatus` of pkg/sshd/server.go;
--   Sshd/Connection: `handleConn`, `sshConnection` and `Ping`; Sshd/Listener: `Serve` and `listen`.
--   Handoff: from the environment of `Receive`, through the assignments of the hook in
--   pkg/git/git.go, to the tags of the settings in pkg/gitreceive/config.go.
--   Gitreceive, in pkg/gitreceive: Sha is git/sha.go, Config is config.go, Pods and Wait are
--   k8s_util.go, Prepare and Build are build.go and build_type.go, Run is run.go, and Controller is
--   controller.go and constants.go, with Controller/Exploit for its regular expression and the
--   records of pkg/types.go in Types.
--   Gitreceive/Storage, in pkg/gitreceive/storage: slug_builder_info.go; Storage/Auth: auth.go,
--   endpoint.go and client.go; Storage/Bucket: bucket.go and object.go.
--   Controller: pkg/controller/utils.go. Http: the requests that the two clients share.
--   Fetcher: `getTar`, `getSlug` and `putSlug` of fetcher/fetcher.go; Fetcher/Server: its routes.
--   Fetcher/Store is an abstract store of archives and slugs by their names; Fetcher/Templates,
--   Fetcher/Routing and Fetcher/Refines compare the server with it, and Fetcher/Paths and
--   Fetcher/Locations apply this to the locations that a build hands to its pods.
--   Strings and FilePath: the functions of Go's strings and path/filepath that the code calls, on
--   texts as lists of bytes. Base: what all files share. Tests: the theorems at concrete inputs.
--
-- Code that calls out is a function over the history of its calls, the latest first
-- (Base/Effect). System names the calls and holds their answers: each is a function of the
-- history before the call, so the same call may be answered differently each time, and a theorem
-- for every `System` holds for every behaviour of the operating system and the cluster. A Go
-- function returns a value, returns an error or panics. Go's `int` is an integer, and a duration
-- is one that wraps around at 64 bits.
--
-- Parameters: `wait.PollImmediate`, of which only the loop in its documentation is assumed
-- (`IsPoll`), and its timeout where a bound is stated (`IsTimed`); the library of routes
-- (`Contexts`, `Dispatcher`); the router of the fetcher, of which its templates are assumed for
-- clean paths (`IsMux`); the reader of the command line (`IsCli`); the client of AWS (`IsAws`);
-- the acceptance of a channel, which fails for one that was rejected (`IsRejecting`), the
-- encodings of a payload and a status, parsing a key and `md5.Sum`, of which only the length of
-- a hash is assumed where stated; the shell of the hook (`IsShell`); `envconfig.Process`,
-- `yaml.Unmarshal`, JSON and `net/http`; the listener, the client of the cluster and the
-- operating system.
--
-- Fuel: the loops run over lists and need none, but for three. The digits of `n` take `n + 1`,
-- since each leaves a tenth of the number. The poll has no bound in the code, and its loop is a
-- relation. `listen` accepts connections until the closer is full or `Accept` fails, and takes
-- fuel for its rounds, as do `Run` and `main` above it: each round takes one connection, so
-- `n + 1` is enough where `n` connections come before that. Without such an `n` it runs on.
--
-- Not modelled: logging, with the printing of a pod for the log and what the handlers of the
-- fetcher print; the SSH handshake, which is the library's; `checkIfAllowed`, which nothing
-- calls; in the requests to the fetcher, a method that the server treats on its own, such as
-- HEAD, and paths that the router redirects.
pub mod Base
pub mod Strings
pub mod FilePath
pub mod System
pub mod Conf
pub mod Controller
pub mod Http
pub mod Types
pub mod Git
pub mod Sshd
pub mod Gitreceive
pub mod Fetcher
pub mod Cookoo
pub mod Commands
pub mod Handoff
pub mod Environment
pub mod Routes
pub mod Boot
pub mod Main
pub mod Tests
