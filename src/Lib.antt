-- ===== src/Lib.antt =====
-- forta-node: how its services run agents and publish their alerts, and the JavaScript that releases
-- it.
--
-- A node is a set of services (services/) that send messages to each other. The scanner keeps a pool
-- of agents; when the list of their versions changes, the pool asks the supervisor to run and stop
-- containers, and attaches an agent when the supervisor announces that it runs. The scanner sends
-- each transaction and block to the agents, whose findings become alerts. The publisher collects
-- alerts in batches and posts them. The updater tells the runner which release to use.
--
-- A release of forta-node is proposed on chain by the action under .github/actions/propose: index.js
-- reads seven inputs, creates a proposal through the Defender client and reports its address to the
-- workflow. The runner executes .github/actions/propose/dist/index.js, which holds index.js together
-- with the packages that it calls; what a run goes through there is modelled from that file.
--
-- Which file models which part:
--
-- - Agents.antt is what the services share: config/agents.go, clients/messaging/subjects.go and
--   metrics/agent_metrics.go.
-- - Scanner.antt is services/scanner/agentpool. Scanner/Errors.antt is poolagent/error_counter.go
--   (`too_many_errs` is TooManyErrs), Scanner/Agent.antt the agent of poolagent/agent.go, and
--   Scanner/Pool.antt agent_pool.go: Scanner/Pool/Handlers.antt its message handlers, each under its
--   own name, Scanner/Pool/Sending.antt SendEvaluateTxRequest, SendEvaluateBlockRequest and Health.
--   Scanner/Pool/Processing.antt is processTransactions and processBlocks of poolagent/agent.go
--   (`process` is one round of either). Scanner/Pool/Steps.antt puts them together: `Step` is one
--   handler, one offer to one agent, one round of a goroutine, or a message.
-- - Supervisor.antt is services/supervisor/start_agent.go: `start_agent` and, from its end, `start_new`,
--   `create_network`, `run_container`, `attach_scanner`, `attach_json_rpc` are startAgent.
--   Supervisor/Handshake.antt joins the supervisor and the pool.
-- - Publisher.antt is services/publisher/publisher.go: Publisher/Batch.antt is BatchData,
--   Publisher/Batch/Preparing.antt prepareLatestBatch (`prepare_from` is its loop), and
--   Publisher/Publishing.antt publishNextBatch, whose steps are functions from `store_receipt` back to
--   `encode_and_publish`. Publisher/Metrics.antt is the buckets of services/publisher/metrics.go.
-- - Registry.antt is store/registry.go and services/registry/registry.go, from which the scanner gets
--   the list of its agents: `get_agents_if_changed` and the functions before it are GetAgentsIfChanged,
--   `publish_latest_agents` is publishLatestAgents. Registry/Following.antt joins it with the pool.
-- - JsonRpc.antt is services/json-rpc/json_rpc_proxy.go and rate_limiter.go: `answer` and
--   `answer_agent` are metricHandler once the sender was looked up. JsonRpc/Isolation.antt is about
--   what the agents see of each other.
-- - Updater.antt is services/updater/updater.go; `update_in` is updateLatestReleaseWithDelay.
-- - Propose.antt is index.js: `proposal` is `params` of proposeUpgrade, `propose_upgrade` that
--   function, `read_inputs`, `announce`, `on_failure` and `main` are main with its try and catch, and
--   `run` is the call at the end of the file. Propose/Outcome.antt proves how a run ends.
-- - Actions.antt is @actions/core in dist/index.js. Actions/Command.antt is command.js, utils.js and
--   file-command.js (workflow commands); Actions/Core.antt is core.js, each function under its own
--   name (`log_error` is error). Actions/Process.antt is what they share: environment, standard
--   output, exit code and files of the process.
-- - Defender.antt is defender-admin-client and defender-base-client in dist/index.js.
--   Defender/Client.antt is BaseApiClient, createApi and authenticate, Defender/Admin.antt is
--   AdminClient. `api_call` is apiCall, and `on_error` its catch.
-- - Actions/Summary.antt is summary.js, the job summary; each method under its own name, and
--   `write_summary` for write.
-- - Http.antt is the toolkit's HTTP client in dist/index.js: Http/Proxy.antt is proxy.js,
--   Http/Handlers.antt the credential handlers of auth.js, Http/Options.antt the fields and the
--   constructor of HttpClient, Http/Client.antt what prepares a request (`make_agent` and `get_agent`
--   are _getAgent), Http/Request.antt its method request (`redirects` is the loop over redirects,
--   `tries` the one over tries), Http/Responses.antt the JSON requests, and Http/Oidc.antt is
--   oidc-utils.js, which calls them.
-- - Defender/Networks.antt is the list of networks and their chain ids.
-- - Axios.antt is part of axios in dist/index.js: Axios/Interceptors.antt is InterceptorManager and
--   the end of Axios.prototype.request (`run_interceptors`), Axios/Dispatch.antt dispatchRequest,
--   settle and transformData, Axios/Config.antt mergeConfig, Axios/Cancel.antt the cancel tokens,
--   Axios/Headers.antt normalizeHeaderName, Axios/Query.antt buildURL, Axios/Validator.antt the checks
--   of options, Axios/Paths.antt buildFullPath,
--   combineURLs and isAbsoluteURL.
-- - Http/Encoding.antt holds what the platform does for them: UTF-8, base64, encodeURIComponent.
-- - Js.antt holds the values of the language: JSON.stringify, template literals, members, spreads.
-- - Prelude.antt holds strings, keyed objects, lists and results.
--
-- How the state of the services corresponds. Go code shares agents by pointers: `Pool` has a heap of
-- agents by address and the list of addresses in the pool. A channel is the list of what is in its
-- buffer; the channels `ready` and `closed` are Booleans. A message is a constructor of `Message`,
-- and what is published is a log. Goroutines and handlers take turns, one step at a time, in any
-- order (a handler is one step also where the source takes no lock, in handleStatusRunning);
-- `select_case` takes an argument that tells what Go chooses where two cases of a select are ready.
-- A Go panic is a flag or `none`. What the code calls outside this repository is a parameter with a
-- state of its own: `Library` (images, short names, hexadecimal numbers), `Docker`, `Services`
-- (signing, IPFS, the alert API, the webhook, the string stores) and `Sources` (registry, release
-- client, the local file), `RegistryClient` (the registry contract and manifests) and `Limiter` (the
-- rate limit of one client). Dialing is a function from the number of the dial.
--
-- How the state of the action corresponds. A JavaScript string is a list of UTF-16 code units. An
-- object with named keys is an association list in the order of insertion. A function that may throw
-- returns a result; what it wrote before the throw stays. `await` runs to completion: the action
-- starts one call at a time. The outside of the program is the parameter `Remote`: signing in with
-- Cognito and sending a request through axios, each with a state of its own; nothing is assumed of
-- it. `World` carries the process, that state, and a log of what was sent. The HTTP client has
-- parameters of its own: what answers a request (`Send`), and `new URL`. `Net` carries the client,
-- the process, the state of the network, and what was sent and waited for.
--
-- Bounds. The error counter of an agent wraps at 2^64; block numbers and counts of alerts are naturals
-- and are only compared, stored and counted up by one. The loops of the services are structural on the
-- lists that they walk over; the loop of prepareLatestBatch is structural on the events that it
-- receives, and is shown to end when one of them is the time-out. Numbers in values are naturals, and
-- are printed in decimal, as JavaScript prints those below 10^21. toUpperCase and toLowerCase change
-- ASCII letters only: the names and hosts that the code compares are ASCII. The loops of request count
-- down the redirects and the tries that remain, so every function is a structural recursion and needs
-- no fuel.
--
-- Not modelled: in the services, logs, health trackers, the metadata of responses and the times of
-- agents and batches; the summaries of metrics, the runner, the private registry store, the
-- analyzers of transactions and blocks, and what starts the services; clients, which call libraries
-- and the network. In the action, sockets and streams as bodies; Cognito, the rest of axios and the
-- other packages of dist/index.js that the parameter `Remote` stands for; pages of it that no run of
-- the action reaches.
pub mod Prelude
pub mod Js
pub mod Actions
pub mod Defender
pub mod Propose
pub mod Agents
pub mod Axios
pub mod Http
pub mod JsonRpc
pub mod Publisher
pub mod Registry
pub mod Scanner
pub mod Supervisor
pub mod Updater
