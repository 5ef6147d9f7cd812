-- ===== src/Util/Delay.antt =====
-- ShouldDelay of pkg/util/util.go: is the deletion of a mount pod put off?
use juicedata_juicefs_csi_dr.Prelude.{
  ◌+◌, Bool, true, false, Option, none, some, [], ◌∷◌, Str, lookup, ltb, ◌-◌,
}
use juicedata_juicefs_csi_dr.Kube.{
  Pod, annotations_of, delete_delay_time_key, delete_delay_at_key, M, ◌>>=◌, ◌>>◌, pure, ask,
}
use juicedata_juicefs_csi_dr.Util.Pods.{add_pod_annotation}

-- GetTimeAfterDelay: the time in `delay`, which may be negative, as text.
unfoldable pub get_time_after_delay : Str → M (Option Str)
get_time_after_delay delay = ask λ env t. elim (env.parse_duration delay) [
  | none ↦ none
  | some (true, d) ↦ some (env.format_time (env.now t - d))
  | some (false, d) ↦ some (env.format_time (env.now t + d))
]

-- No time is set yet: it is written to the pod.
unfoldable pub start_delay : Pod → Option Str → M Bool
start_delay pod none = pure false
start_delay pod (some d) = do add_pod_annotation pod ((delete_delay_at_key, d) ∷ []); pure true

-- A time is set: the deletion waits while it lies ahead.
unfoldable pub delay_lasts : Str → M Bool
delay_lasts delay_at =
    ask λ env t. elim (env.parse_time delay_at) [ none ↦ false | some at ↦ ltb (env.now t) at ]

unfoldable pub should_delay : Pod → M Bool
should_delay pod = elim (lookup delete_delay_time_key (annotations_of pod)) [
  | none ↦ pure false
  | some delay ↦ elim (lookup delete_delay_at_key (annotations_of pod)) [
    | none ↦ do d ← get_time_after_delay delay; start_delay pod d
    | some delay_at ↦ delay_lasts delay_at
  ]
]
