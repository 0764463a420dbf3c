-- ===== src/Lib.antt =====
-- Board: container services on Kubernetes. The API server (src/apiserver) keeps users, projects and
-- the drafts of services, and drives the cluster through src/common/k8sassist.
--
-- The parts and their files. Paths are from the repository's root.
-- - ServiceConfig, ServiceConfig/*: src/apiserver/v1/controller/serviceconfig.go, the draft of a
--   service that a user fills in phase by phase, with CheckServiceConfigPortMap of
--   src/apiserver/service/serviceconfig.go and ValidateWithLengthRange of
--   src/common/utils/validator.go. A handler is a `Stage`: it goes on with a value or has replied.
--   What it asks of the request, the database and the cluster is a record of answers. The drafts are
--   in the memory cache. The cache holds pointers; since every phase writes to a draft only after its
--   last refusal, and stores it at once, a draft is a value here.
-- - Deploy, Deploy/*: src/apiserver/service/serviceconfig.go, from MarshalService to MarshalNamespace:
--   what a draft becomes on the cluster, and GetDeploymentContainers, which shows the containers of a
--   deployment. Deploy/Cluster follows a draft on to the types of the cluster, and
--   Deploy/View/Cluster from there back to what is shown. The look-up of a node group and
--   `filepath.Join` are parameters.
-- - Auth/Lockout, Auth/Lockout/*: src/apiserver/service/auth/auth.go, the count of failed sign-ins of
--   a principal and its temporary block, in a cache of its own.
-- - Auth/SignIn, Auth/SignIn/*: ProcessAuth of src/apiserver/controllers/commons/auth.go, which signs a
--   user in: the methods of sign-in (GetAuth and DoAuth), the token server (SignToken), the captcha
--   and base64 are parameters; `none` is their error.
-- - Nodes, Nodes/*: src/apiserver/service/node.go. Groups has the node groups, which are rows of the
--   database and labels of nodes; Listing the list of nodes, Members adding and deleting nodes, and
--   Control the state of a node and its drain. Computations on the cluster and the table are those of
--   Prelude/Effect: they return, give an error or panic, and leave a state. Pings are a parameter.
-- - Projects, Projects/*: the members of projects, src/apiserver/service/projectmember.go with what it
--   takes of user.go and devops.go there, and in Creation what project.go there does with a single
--   project, from CreateProject to ToggleProjectPublic. The id of a row of a member is the sum of the
--   ids of its user and its project; the sum of two `int64` wraps around.
-- - Users, Users/*: src/apiserver/service/user.go, without signing up, the lists of users and the decoding
--   of a password. The hash of a password is a parameter.
-- - Dao, Dao/*: src/common/dao/node.go, the table of node groups, and project.go, projectmember.go and
--   user.go there, the tables of projects, members and users; the object mapper and the SQL statements
--   are records of operations and laws, and Dao/NodeGroup/Memory, Projects/Memory and Users/Tests
--   have tables that meet them.
-- - K8s/Client: the calls to the cluster for nodes and pods, which are third-party code, as records of
--   operations and laws; K8s/Client/Memory is a cluster that meets them. Nobody else changes the
--   cluster or the table during a call. K8s/Assist, K8s/Assist/*: nodeassist.go and podassist.go of
--   src/common/k8sassist/corev1/cgv5/apps, which convert around these calls.
-- - Cache: the interface of the memory cache, which is third-party code: operations and laws.
--   Cache/Memory is a cache that meets the laws.
-- - Model, Model/*: the types of src/common/model.
-- - K8s/Convert, K8s/Convert/*: src/common/k8sassist/corev1/cgv5/types/convert.go, the conversions
--   between the program's types and those of the Kubernetes API, for metadata, namespaces, services,
--   nodes, volumes, configuration maps, scales and autoscalers, pods with their volumes, containers and
--   placement, deployments and replica sets. FromK8sNode is from_k8s_node, and so
--   on. K8s/Api holds the parts of the API's types that are read and written; its quantities are a
--   record of operations and laws.
-- - Prelude, Prelude/*: the library's names, integers, Go's slices and maps, and `strconv.Itoa` and
--   `strconv.Atoi`. Lengths and positions of texts count bytes.
-- The modules named Tests hold runs on concrete inputs.
--
-- Numbers: times are nanoseconds and counts of attempts and of seconds are natural numbers; Go's
-- integers are integers, and the conversion to `int32` wraps around. The one definition on fuel prints
-- decimal digits, with one more than the number, which is enough (`atoi-itoa` of Prelude/Decimal).
-- A panic is a result `none` of the conversions, `panics` of the computations on the cluster, and a
-- reply `aborted` of the handlers.
-- The stream combinators in CheckServiceConfigPortMap, which are third-party code, are loops over
-- lists; `collect` is their `Collect`, which ends at the first nil. A check of the lockout looks the
-- entry up once, where the code calls IsExist and Get. The test of a captcha is a parameter, and the
-- entry that it deletes from the memory cache is not part of the state.
-- The table of members is set up with one row whose id is not the sum of its user and its project; the
-- invariant of its rows makes an exception for it.
--
-- Not modelled: the other tables of the database, the other clients of Kubernetes, Helm, Jenkins,
-- GitLab and the registry, the token and admin servers and the user interfaces, which are input and
-- output; logging.
pub mod Prelude
pub mod Cache
pub mod Auth
pub mod Model
pub mod K8s
pub mod ServiceConfig
pub mod Deploy
pub mod Dao
pub mod Nodes
pub mod Projects
pub mod Users
