-- ===== src/Lib.antt =====
-- A model of saas-reaper: the feature-flag service of the repository, the factory that composes a
-- customer's recipe, and the hosted ingress tunnel.
--
-- Flags (internal/flags, internal/snapshot, internal/store/memory, internal/store/sqlite,
-- internal/api).
-- Flags/Flag is flag.go and context.go: a definition, `Validate` and `Copy`. Flags/Evaluate is the
-- pure part of evaluate.go; SHA-256 is its parameter `sha256`. Flags/Snapshot is the read projection
-- of internal/snapshot/memory.go. Flags/Authority is the `Store` interface of publish.go, as
-- operations on a state with the laws that the service relies on; Flags/Memory is
-- internal/store/memory/memory.go, and Flags/Memory/Laws fills the interface with it. Flags/Service
-- is `Open`, `Publish`, `Evaluate`, `List` and `Audit`. A publication commits in the authority and
-- then writes the projection, each under its own lock: Flags/Service/Convergence takes the two as
-- separate steps, which those of other calls may come between. Flags/Service/Restart is `Open`
-- over a store that earlier calls have left.
-- Flags/Sqlite is internal/store/sqlite: the tables and the transactions over them (Base/Durable),
-- whose statements may fail as a plan says. A transaction that fails has written what its earlier
-- statements wrote, and the deferred Rollback takes it back, as database/sql documents. The JSON of a
-- definition is the parameter `codec`.
-- Flags/Sqlite/Laws fills the interface of an authority with it, and Flags/Sqlite/Refinement takes
-- Flags/Memory as its specification. Flags/Api is internal/api: Flags/Api/Routes and Flags/Api are
-- routes.go, Flags/Api/Manage is manage.go and Flags/Api/Ofrep is evaluate.go. A handler is a function
-- from the request and the service to the response and the service.
--
-- Tunnel (specimens/ingress-tunnel/internal: tunnel, store/sqlite, link, agent, edge and api).
-- Tunnel/Lifecycle is the table of transition.go with errors.go and audit.go, Tunnel/Claim is
-- claim.go, Tunnel/Registry is registry.go, and Tunnel/Service is tunnels.go (Attach and Lost are in
-- Tunnel/Service/Attachment) over Tunnel/Store, its `Store` interface with the laws that the service
-- relies on. The service's mutex makes a call one step; a call is what it decides before its first
-- write, a function into a result, followed by the write and the change of the routing table.
-- Tunnel/Service/Runs has histories of calls in any order, from a service that was just started over
-- any store, such as one that a crash has left.
-- Tunnel/Host is host.go and Tunnel/Reconnect is reconnect.go.
-- Tunnel/Database is the SQLite store: tables, and transactions over them whose statements may
-- fail as a plan says; Tunnel/Database/Laws fills the interface with it. Tunnel/Agent is the loop
-- of agent.go, over a list of what the world does in each of its rounds, and Tunnel/Agent/Target
-- its target. Tunnel/Edge is proxy.go: the link that a request is handed to, and the headers that
-- it is handed on with; Tunnel/Edge/Observe is observe.go, what is recorded of an answer.
-- Tunnel/Link is the part of link/accept.go before the upgrade, and the
-- close statuses of link.go; Tunnel/Link/Handler is the links that the handler holds, one goroutine
-- each, and its shutdown, as steps that come in any order. Tunnel/Api is the HTTP API of the tunnel:
-- Tunnel/Api/Routes is what is asked and answered, Tunnel/Api the handlers.
--
-- Factory (internal/factory). Factory/Catalog is catalog.go, Factory/Validate is recipe.go and
-- validate.go. Generate of render.go is spread over four: Factory/Disk has the calls of `os`, each of
-- which may fail and comes after what other processes have written (the directories above the
-- destination are made one by one and stay, those inside the staging directory are implied by its
-- files); Factory/Render is the pure part,
-- Factory/Write the writing of templates, links and the recipe into the staging directory, and
-- Factory/Generate the checks before it, the publication after it, archive.go and Generate itself.
-- Factory/Disk/Keeps and Factory/Disk/Ensures are the rules by which the proofs go through such
-- code; Factory/Generate/Expected is the repository of a recipe as a value, and
-- Factory/Generate/Whole has the theorems. Factory/Command is the interactive configurator of
-- cmd/reaper/main.go, over the lines of its input, and its other commands.
--
-- Conventions. A Go function with an error is a function into `Result` (Base/Errors), whose errors
-- are the classes that `errors.Is` tells apart; messages are left out. An `int` or `int64` is an
-- integer whose increment wraps (Base/Int64); a `uint64` is a number whose arithmetic is written
-- modulo 2 ^ 64. A Go map is an association list (Base/Map), whose order stands for that of `range`.
-- Times are nanoseconds, and every reading of the clock is an argument. No definition uses fuel: the
-- loops of the program run over lists, that of the agent over the rounds that it meets.
--
-- What the code uses of libraries is a parameter, a record or an argument of a section, with what is
-- relied on as its laws.
--
-- Not modelled: the other commands and the browser's configurator, which set up processes and serve
-- files; the transport of a link, the streams of the agent and of the edge, and the metrics, which are
-- third-party protocols; the routing of net/http, which chooses the handler of a request. Texts are
-- sequences of runes, so that invalid UTF-8 does not occur, and an error answer does not have its
-- message.
mod Base
pub mod Flags
pub mod Tunnel
pub mod Factory
