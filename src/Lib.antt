-- ===== src/Lib.antt =====
-- The driver of JuiceFS for the Container Storage Interface: what it does with volumes, targets and
-- mount pods, as definitions that compute, and the properties of them.
--
-- The program. The node service (pkg/driver/node.go) answers NodePublishVolume and
-- NodeUnpublishVolume of the kubelet. It calls the provider (pkg/juicefs/juicefs.go), which mounts a
-- file system by a mount pod (pkg/juicefs/mount/pod_mount.go) and binds it to the target of the app
-- pod. A mount pod has one annotation for each target that uses it, a reference; it is deleted when
-- none is left. The pod driver (pkg/controller/pod_driver.go) looks at each mount pod of the node: it
-- drops the references of app pods that are gone, binds targets again after a mount pod came back,
-- deploys a pod again that failed, and cleans up after one that is deleted. The controller service
-- (pkg/driver/controller.go) keeps the volumes that it created and the locks of those in deletion;
-- the provisioner (pkg/driver/provisioner.go) makes and deletes volumes of a storage class. The
-- settings of a volume (pkg/config/setting.go) are parsed from its secrets, its context and its mount
-- options, patched by the configuration file (pkg/config/config.go), and turned into the commands of
-- the clients. Where no mount pods are used, processes of the driver make the mounts
-- (pkg/juicefs/mount/process_mount.go), and the table of mounts counts their targets.
--
-- How it is modelled. A function of the source that has effects is a program `M A`: it takes an
-- environment and the history of the events so far, and returns a result with the new history
-- (Kube/Effects.antt). The environment answers each call by a function of the history, so that a
-- theorem about all environments speaks of all answers, errors and interleavings with others. A
-- result is a value, an error, or `diverged`, which is a panic, a call that does not return, or a
-- loop that has used its fuel. Loops without a limit in the source (waits for a pod, a job, a mount)
-- run for `fuel` rounds, and every theorem holds for all numbers of rounds. Maps are association
-- lists in an order that stands for the iteration of Go; texts are lists of bytes. Locks are noted
-- in the history; the interleaving of requests is modelled where the code's own state depends on it,
-- in Driver/Controller/Deletions.antt.
--
-- The files.
-- Prelude.antt and its children: numbers, lists, texts, maps, paths.
-- Kube.antt: the objects and calls of pkg/k8sclient/client.go, the host, and what a program keeps
-- true of the history (Kube/Invariants.antt).
-- Util.antt: pkg/util. Pods is pod.go, Jobs job.go, Names, Delay, Mounts, Sizes and MountTable are
-- util.go; Templates and Sharing are pvc.go, Escape is security/escape.go; Guarded is the condition
-- on deletions of pods.
-- Config.antt: pkg/config. Parsing is ParseSetting of setting.go with Cache for its cache
-- directories, Attr is GenPodAttrWithCfg, and Resources, FormatOptions and AppInfo are the
-- functions of those names; Patches is config.go.
-- Controller.antt: pkg/controller. MountTable is mountinfo.go, PodDriver is pod_driver.go with a
-- child for each handler; Recycling is job_controller.go and mount_controller.go, AppQueue is the
-- queue of app_controller.go, and AppHooks its Reconcile. MountPods is pod_controller.go, which
-- runs PodDriver, and Rounds the choice of pods in reconciler.go.
-- Juicefs.antt: Settings holds the types of pkg/config/setting.go, PodMount is
-- pkg/juicefs/mount/pod_mount.go, ProcessMount is pkg/juicefs/mount/process_mount.go, Builder has
-- the texts of pkg/juicefs/mount/builder, Provider is pkg/juicefs/juicefs.go: Mounts has the mounts
-- and the settings, Files the targets, Unmount JfsUnmount, Commands the commands of the clients,
-- Options the mount options, Version the versions.
-- Driver.antt: pkg/driver. Controller is controller.go, Node is node.go, Provision is
-- provisioner.go, Locks is pkg/util/volume.go. Provider is the interface of the provider, which the
-- services take as an argument, and JuicefsProvider puts the provider of this repository together
-- for it.
-- Examples.antt: the properties at concrete inputs.
--
-- What is code elsewhere. Answers of the API server and of the host, time, random names, SHA-256,
-- quantities and the text of numbers are fields of the environment; the builders of objects and
-- JSON are the record Builder (Juicefs/Settings.antt). YAML, JSON, label selectors, decimal
-- fractions and the kubelet are the records Library (Config/Attr.antt), PatchLibrary
-- (Config/Patches.antt), Sizes (Juicefs/Provider/Options.antt) and Kubelet (Config/AppInfo.antt),
-- with no assumption on them. The assumption on the API server that theorems name, AnswersByName
-- (Util/Guarded.antt), is that a pod is answered by the name that was asked for.
--
-- What is not modelled. The webhook, secret_controller.go, the goroutines of reconciler.go, the
-- dashboard and the start of the processes; of the provider, JfsUnmount for mounts by process with
-- its maps of uuids and cache directories. The variables that a command is run with are not
-- recorded, and TrimSpace knows the spaces of ASCII alone. Timeouts are answers of the calls they
-- limit.
pub mod Prelude
pub mod Kube
pub mod Util
pub mod Config
pub mod Controller
pub mod Juicefs
pub mod Driver
pub mod Examples
