-- ===== src/Config/AppInfo.antt =====
-- ParseAppInfo of pkg/config/setting.go.
use juicedata_juicefs_csi_dr.Prelude.{
  Option, none, some, Str, lit, is_empty, get_str, GoMap, if◌then◌else◌, [],
}
use juicedata_juicefs_csi_dr.Kube.{Result, ok, err, diverged, other}
use juicedata_juicefs_csi_dr.Juicefs.Settings.{AppInfo}

-- The kubelet, where one is configured: is there a client for it, and does it answer?
pub record Kubelet : Type 0 where
  pub client : Result (Unit {0})
  pub running_pods : Result (Unit {0})

unfoldable pub app_info_of : Option (GoMap Str) → Option AppInfo
app_info_of none = none
app_info_of (some vol_ctx) = some (record {
  name = get_str (lit "csi.storage.k8s.io/pod.name") vol_ctx;
  namespace = get_str (lit "csi.storage.k8s.io/pod.namespace") vol_ctx;
})

abbrev pod_name_of : Option (GoMap Str) → Str
pod_name_of none = []
pod_name_of (some vol_ctx) = get_str (lit "csi.storage.k8s.io/pod.name") vol_ctx

abbrev with_pods : Result (Unit {0}) → Option (GoMap Str) → Result (Option AppInfo)
with_pods (ok u) vol_ctx = ok (app_info_of vol_ctx)
with_pods (err e) vol_ctx =
    if is_empty (pod_name_of vol_ctx)
    then err (other "can not connect to kubelet")
    else ok (app_info_of vol_ctx)
with_pods diverged vol_ctx = diverged

abbrev with_client : Kubelet → Result (Unit {0}) → Option (GoMap Str) → Result (Option AppInfo)
with_client k (ok u) vol_ctx = with_pods k.running_pods vol_ctx
with_client k (err e) vol_ctx = err e
with_client k diverged vol_ctx = diverged

unfoldable pub parse_app_info : Option Kubelet → Option (GoMap Str) → Result (Option AppInfo)
unfolding app_info_of
parse_app_info none vol_ctx = ok (app_info_of vol_ctx)
parse_app_info (some k) vol_ctx = with_client k k.client vol_ctx
