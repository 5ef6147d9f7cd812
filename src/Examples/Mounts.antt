-- ===== src/Examples/Mounts.antt =====
-- Mount pods, their references and jobs at concrete inputs.
use juicedata_juicefs_csi_dr.Prelude.{
  ◌≡◌, refl, true, false, none, some, [], ◌∷◌, ◌++◌, List, Str, lit, lookup, str_eq, any, contains,
  has_prefix,
}
use juicedata_juicefs_csi_dr.Kube.{
  Env, Job, MountInfo, ok, umounted, retry_on_conflict, get_pod, annotations_of, patch_pod, get_job,
  delete_job,
}
use juicedata_juicefs_csi_dr.Juicefs.Provider.Files.{target_minor}
use juicedata_juicefs_csi_dr.Juicefs.Provider.Minors.{target_minor-last}
use juicedata_juicefs_csi_dr.Juicefs.PodMount.Mount.{create_or_add_ref}
use juicedata_juicefs_csi_dr.Juicefs.PodMount.Refs.{add_ref_of_mount, umount_all, add_ref_once}
use juicedata_juicefs_csi_dr.Juicefs.PodMount.References.{
  EndsReferred, add_ref_of_mount-EndsReferred,
}
use juicedata_juicefs_csi_dr.Juicefs.PodMount.Unmounts.{
  MountedTimes, unmounted, once_more, EndsUnmounted, umount_all-ends, umount_all-EndsUnmounted,
}
use juicedata_juicefs_csi_dr.Juicefs.PodMount.Jobs.{wait_until_job_completed, finish_job}
use juicedata_juicefs_csi_dr.Juicefs.PodMount.JobEnds.{
  EndsComplete, wait_until_job_completed-EndsComplete,
}
use juicedata_juicefs_csi_dr.Examples.World.{empty_world, world_with, mount_pod, example_setting}
use juicedata_juicefs_csi_dr.Util.Pods.{replace_pod_annotation}
use juicedata_juicefs_csi_dr.Util.Mounts.{says_not_mounted}
use juicedata_juicefs_csi_dr.Util.Jobs.{is_job_completed, has_condition, is_job_should_be_recycled}
use juicedata_juicefs_csi_dr.Juicefs.Settings.{Builder}
use juicedata_juicefs_csi_dr.Juicefs.PodMount.Creations.{CreatesReferring}
use juicedata_juicefs_csi_dr.Juicefs.PodMount.Referring.{create_or_add_ref-CreatesReferring}
use juicedata_juicefs_csi_dr.Util.Names.{get_reference_key}

-- The target has the device 51, the last entry the device 99.
abbrev mount_entries : List MountInfo
mount_entries = record { mount_point = lit "/target"; root = lit "/"; minor = 51 } ∷ []

abbrev last_entry : MountInfo
last_entry = record { mount_point = lit "/unrelated"; root = lit "/"; minor = 99 }

target_minor-last_example :
    target_minor (lit "/target") (mount_entries ++ last_entry ∷ []) ≡ some 99
unfolding any str_eq
target_minor-last_example = target_minor-last (lit "/target") mount_entries last_entry refl

abbrev free_world : Env
free_world = world_with (mount_pod [])

adds_ref : (add_ref_of_mount (lit "/target") (lit "juicefs-node-a-pvc-1") free_world []).0 ≡ ok tt
unfolding add_ref_of_mount retry_on_conflict add_ref_once get_pod str_eq lookup annotations_of
    replace_pod_annotation patch_pod
adds_ref = refl

add_ref_of_mount-EndsReferred_example :
    EndsReferred free_world.sha256_hex
      (lit "juicefs-node-a-pvc-1")
      free_world.mount_namespace
      (lit "/target")
      (add_ref_of_mount (lit "/target") (lit "juicefs-node-a-pvc-1") free_world []).1
add_ref_of_mount-EndsReferred_example =
    add_ref_of_mount-EndsReferred (lit "/target") (lit "juicefs-node-a-pvc-1") free_world []
      adds_ref

abbrev target : Str
target = lit "/target"

-- A host where the target is mounted once: the first unmount succeeds.
abbrev once_mounted : Env
once_mounted = record empty_world {
  umount_reply = λ t _. elim t [
    | [] ↦ record { failed = false; output = [] }
    | e ∷ t' ↦ record { failed = true; output = lit "umount: /target: not mounted" }
  ];
}

mounted_once : MountedTimes once_mounted target 1 []
unfolding says_not_mounted contains has_prefix
mounted_once =
    once_more refl
      (unmounted {t = umounted target (record { failed = false; output = [] }) ∷ []} refl refl)

umount_all-ends_example : (umount_all 2 target once_mounted []).0 ≡ ok tt
umount_all-ends_example = umount_all-ends 1 target once_mounted [] mounted_once

umount_all-EndsUnmounted_example : EndsUnmounted target (umount_all 2 target once_mounted []).1
umount_all-EndsUnmounted_example =
    umount_all-EndsUnmounted 2 target once_mounted [] umount_all-ends_example

abbrev complete_job : Job
complete_job = record {
  name = lit "juicefs-create";
  namespace = lit "kube-system";
  conditions =
      record { kind = lit "Complete"; status = lit "True"; reason = []; message = [] } ∷ [];
  deleting = false;
  node_name = lit "node-a";
  ttl_seconds = none;
  completion_time = none;
}

abbrev job_world : Env
job_world = record empty_world { get_job_reply = λ _ _ _. ok complete_job }

job_ends : (wait_until_job_completed 1 complete_job.name job_world []).0 ≡ ok tt
unfolding wait_until_job_completed get_job is_job_completed any has_condition str_eq finish_job
    is_job_should_be_recycled delete_job
job_ends = refl

wait_until_job_completed-EndsComplete_example :
    EndsComplete complete_job.name job_world.mount_namespace
      (wait_until_job_completed 1 complete_job.name job_world []).1
wait_until_job_completed-EndsComplete_example =
    wait_until_job_completed-EndsComplete 1 complete_job.name job_world [] job_ends

abbrev pub example_builder : Builder
example_builder = record {
  marshal = λ setting. ok (lit "{}");
  new_mount_pod = λ setting pod_name. record (mount_pod []) { name = pod_name };
  new_secret = λ setting. record {
    name = lit "s";
    namespace = lit "kube-system";
    string_data = [];
    secret_data = [];
    finalizers = [];
  };
  new_create_volume_job = λ setting. complete_job;
  new_delete_volume_job = λ setting. complete_job;
  new_clean_cache_job = λ setting. complete_job;
  new_job_secret = λ setting job. record {
    name = lit "s";
    namespace = lit "kube-system";
    string_data = [];
    secret_data = [];
    finalizers = [];
  };
}

no_pods : (key : Str) → CreatesReferring key target []
unfolding CreatesReferring
no_pods key = tt

create_or_add_ref-CreatesReferring_example :
    CreatesReferring
      (get_reference_key empty_world.sha256_hex example_setting.target_path)
      example_setting.target_path
      (create_or_add_ref 2 example_builder
        (lit "juicefs-node-a-pvc-1-abcdef")
        example_setting
        none
        empty_world
        []).1
create_or_add_ref-CreatesReferring_example =
    create_or_add_ref-CreatesReferring 2 example_builder (lit "juicefs-node-a-pvc-1-abcdef")
      example_setting none empty_world [] (no_pods _)
