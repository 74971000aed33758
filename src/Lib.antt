-- ===== src/Lib.antt =====
-- zlttbots runs crawlers, GPU renderers, an API gateway and the deployments of the projects that use
-- it. This library models the parts that decide: who gets a message, a request, a worker, a GPU or a
-- retry, and when a deployment may move on.
--
-- Prelude: what the models share: Python's integers, lists, dictionaries (in the order of insertion),
-- sorting, texts and exceptions as outcomes.
--
-- Runtime: the package enterprise_maturity/v3_runtime. Every object is a record of its attributes;
-- a method takes its arguments and the object, and returns its outcome and the object after it.
--   Queue: queue_system.py. publish appends to a topic, consume takes a batch off its front. Reading
--   a topic creates it, since the topics are a defaultdict.
--   Discovery: service_discovery.py. register replaces an instance with the same endpoint.
--   Gateway: api_gateway.py. route asks the discovery for healthy instances and takes them in turn.
--   Autoscaling: autoscaling.py. The number of workers that a backlog asks for, within its bounds.
--   Gpu: gpu_scheduler.py. A job goes to the fitting node with the least room; release gives it back.
--   Crawler: crawler_cluster.py. Jobs go through the queue, the backlog drives the autoscaler.
--   Canary: MultiRegionCanaryManager of deployment_pipeline.py. Floats are a parameter.
--   Planning: PipelineAIOptimizer of deployment_pipeline.py. The groups of stages that run together.
--   Healing: ManifestSelfHealer and NotificationBridge of the same file. What Python does with a
--   manifest is a parameter.
--   Platform: orchestrator.py, the composition of the parts that keep a state in memory.
--
-- Deploy: services/master-orchestrator/src. Machine has the states and transitions of a deployment,
-- Store the records and idempotency keys of deployment_controller.py, Endpoints the HTTP handlers of
-- main.py over the store. The lock of the store makes each of its methods one step. The time and the
-- new identifier of a call are its arguments.
--
-- Maturity: the package enterprise_maturity. Resilience.Retry, Resilience.Breaker and
-- Resilience.Idempotency are the classes of resilience.py. A function that is passed in takes the
-- world, and returns its outcome and the world after it. Blueprint is v3_upgrade.py,
-- Admission the QueueAdmissionController and Scaling the AutoscalingAdvisor of performance.py,
-- GoToMarket go_to_market.py, FullUpgrade full_upgrade.py, Roadmap roadmap.py, Security security.py,
-- Operations operations.py and governance.py.
--
-- Exchange: services/exchange/src. Floats is what the code uses of floats; Heap is heapq as Python has
-- it, with a comparison that may raise; Book is orderbook.py; Limits is security.py; Orders is the
-- endpoint of main.py. The check of a signature is a parameter. The loops of heapq go round on fuel, as
-- many rounds as the heap has elements, and more would change nothing. The loop of match goes round on
-- fuel, one round for each order and one to find its end.
--
-- Egress: services/network-egress/src/client.py. Url is the guard on targets, Client the attempts of
-- post, one for each of the client's retries. What urlparse and ip_address read out of a text, and the
-- request itself, are parameters.
--
-- Payment: services/payment. Circuit is circuit.py, Adapter the send of adapter.py, Webhook
-- webhook.py with its two tables as lists of rows. The world holds the time; the audit log and the
-- seconds slept are lists.
--
-- Arbitrage: services/arbitrage-engine/src. Queue is the part of core/database.py that publishing uses,
-- Publishing the daily run of publishing/controller.py, Market the detection of engine/arbitrage.py
-- with payouts, events and reports, Api the endpoints of api/server.py that change or read the store.
-- Two dictionaries of the store are two records; floats and the normal form of a name are parameters.
--
-- Federation: Registry is services/federation/src/main.py, with the table of nodes as a dictionary,
-- Scheduler services/scheduler/src/main.py, and Tokens the signed tokens that both sides share. What
-- json, base64 and hmac do is a parameter, with its documented laws where a theorem needs them.
--
-- Auth: services/jwt-auth/src/main.py. Jwt is its class _SimpleJWT, which serves where the
-- library jwt is missing, Padding the equals signs behind a base64 text, Tokens the issue of a token and
-- the check of a request.
--
-- Serving: services/model-service/src. Model is the prediction of main.py, Runtime queue_runtime.py with
-- result_store.py and predict_async, Waiting the endpoints that read a result. A round of a consumer is
-- one step; the loop of wait_result goes round on fuel, for which one more than the number of a poll
-- behind the deadline is enough.
--
-- Singularity: services/singularity/src. The bus of orchestrator.py and the agents of agents.py, with the
-- events as a data type by their topics. The loop of Orchestrator.run goes round on fuel, one round for
-- each event: eight are enough for the run of run.py.
--
-- Execution: services/execution-engine/src/main.py, the token bucket and publish. The tokens that come
-- between two times are a parameter.
--
-- Bounds: integers are Python's, without a width. Besides those of heapq four
-- loops go round on fuel: that of RetryPolicy.run, which has one round for each retry and one for the
-- first attempt, that of OrderBook.match, where a round on finite quantities fills an order, which heappop
-- takes out of the book or raises, that of wait_result and that of Orchestrator.run, whose fuel is said above.
--
-- Not modelled: the network, databases and brokers, threads, logging, the learning services
-- other than the model service, the TypeScript applications, scripts and manifests. The checks of
-- request fields by pydantic, clocks, identifiers, floats and lower-casing are parameters, where a
-- definition uses them.
pub mod Prelude
pub mod Runtime
pub mod Maturity
pub mod Deploy
pub mod Payment
pub mod Exchange
pub mod Execution
pub mod Arbitrage
pub mod Auth
pub mod Egress
pub mod Federation
pub mod Serving
pub mod Singularity
