-- ===== src/Lib.antt =====
-- Sunwukong, a horizontal autoscaler for Kubernetes that is written in Go. A custom resource, the
-- Houmao ("monkey hair"), names a target, metrics, a behavior and the least and the greatest number
-- of replicas. One deployment (the Xianqi) runs the scaling loop for each Houmao.
--
-- Parts and files
--   pkg/zaohua/daofa/metrics   Metrics: asks the three metrics APIs for the values of a metric
--       (Client: GetResouceMetric, GetRawMetric, GetObjectMetric, GetExternalMetric, getPodMetrics,
--       getContainerMetrics) and averages them (Utilization: GetResourceUtilizationRatio,
--       GetMetricUtilizationRatio); proofs in Reports, Selected, Failures, Order, Exact and
--       Safety.
--   pkg/zaohua/daofa/replica_calculator.go   Daofa.Groups (groupPods), Daofa.Requests
--       (calculatePodRequests) and Daofa.Replicas: the replicas that one metric asks for, a file per
--       type of metric (Resource, Pods, Object, External) over the steps they share (Balance). Proofs
--       are in Live, Safety and Outcomes. Daofa.Cluster is the CalculateHandle.
--   pkg/zaohua/daofa/behavor_processor.go   Daofa.Behavior: the window (Stabilization), the rate
--       limits (Rates) and ReviseWithBehavor (Revision); proofs in Window, Limits, Exact, Revise,
--       Errors and Total.
--   pkg/zaohua/daofa/zaohua.go   Daofa.Calculate (calculate; proofs in Greatest, Elected, Unique
--       and Values),
--       Daofa.Events (storageScaleEvent; proofs in Kept and Changes), Daofa.Scale (execScale,
--       updateStatus, getScaleForTarget, detectAndScale; proofs in Effect, Sends, Recorded and
--       History),
--       Daofa.Loop (StartZaohua and RestartZaohua as steps; Worlds has its runs in a cluster that
--       answers anew at each step; proofs in Names, Updates, Refines, Ascends, Histories, Progress,
--       Reloads and Restarts), Daofa.Records (the histories, max and min). Daofa.Autoscaler says
--       what is due at one time, against which Refines sets the loop. The modules Total of Replicas,
--       Calculate, Behavior and Scale have the proofs of how a round ends.
--   pkg/status_updator   Status: the patches of the object's status.
--   api/v1/zz_generated.deepcopy.go   Copies, over a store of addresses; proofs in Shared.
--   api/v1/groupversion_info.go   Startup.Registration, with init of api/v1/houmao_types.go and of
--       cmd/initial/initial.go.
--   api/v1/houmao_types.go   Houmao. The Kubernetes types that the code reads are in Kube.
--   pkg/xianqi_manager   Xianqi: the deployment of the scaling loop.
--   controllers/houmao_controller.go   Controller: Reconcile and the finalizers; proofs in Requests,
--       Deployed, Outcomes, Settled and Rounds.
--   pkg/zaohua/controllers   ZaohuaController: the restart of the loop; proofs in Restarts and,
--       with the loop beside it, Lost.
--   main.go, cmd, customize_metrics, util/logger   Startup: the commands (Commands) and
--       InitialAggrator (Initial) over a process that acts and ends (Process), and the log (Logger);
--       proofs in Order, Unread and Redefined.
--   Base has the shared helpers, Float the floating-point numbers, Tests runs of the code.
--
-- InitialAggrator, for the role zaohua, starts the loop with a handle made of its parameters and the
-- object that it reads, and then a controller that restarts the loop; for the role shifa it starts the
-- controller of the Houmao.
-- A round of detectAndScale reads the scale, lets calculate ask Daofa.Replicas for each metric, hands
-- the answer to execScale, which revises it by the behavior, sends the update and stores the event,
-- and lets updateStatus patch the status.
--
-- How the code is modelled
--   A Go call ends in a Result: a value, an error, or a panic (a nil pointer, a division by 0, a
--   function that was never assigned, an index out of range). Pointers are Options. The package's
--   variables and the requests sent are the record Store, which a round takes and returns. int32
--   and int64 are integers whose operations wrap around (Base.Words). A quantity goes by its
--   MilliValue. float64 is the parameter Float, of which no law is assumed; a theorem that has it
--   holds for every choice of its operations, and runs use fractions. Readings of the clock are
--   arguments. Maps are association lists with distinct keys where they are built. The Kubernetes
--   clients, the selectors and the pod helpers are parameters (Cluster, MetricsApi, ScaleClient,
--   XianqiClient, HoumaoClient), and so are cobra, the package flag, zap, promauto and the manager
--   (CommandLine, FlagPackage, Environment) and the library of schemes (SchemeLibrary, with its
--   laws). What the cluster, its clients and the clock answer at one time is a World, and a Run of
--   the loop has one for each of its steps; a state of the API server gives a reconciliation its
--   clients. A start of the program is the list of what it does and how it ends. Loops are recursions
--   on the lists they range over, so no fuel is needed; the loop that shifts the last results
--   recurses on the number of its steps, and the endless loop of StartZaohua is a relation of steps.
--
-- Not modelled
--   What is logged, the configuration that viper reads, and vendored code, which is a parameter
--   where the code calls it. Of the loop, neither fairness nor time is modelled.
pub mod Base
pub mod Float
pub mod Kube
pub mod Metrics
pub mod Houmao
pub mod Status
pub mod Daofa
pub mod Xianqi
pub mod Controller
pub mod ZaohuaController
pub mod Copies
pub mod Startup
pub mod Tests
