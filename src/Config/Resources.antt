-- ===== src/Config/Resources.antt =====
-- ParsePodResources of pkg/config/setting.go: the resources of a mount pod, by its settings.
use juicedata_juicefs_csi_dr.Prelude.{
  Bool, Option, none, some, [], ◌∷◌, ◌++◌, Str, lit, GoMap, str_eq, if◌then◌else◌,
}
use juicedata_juicefs_csi_dr.Kube.{Result, ok, err, diverged, other}

pub record Requirements : Type 0 where
  pub limits : GoMap Str
  pub requests : GoMap Str

-- The text of a quantity and whether it is above zero, if it can be read.
abbrev pub Parser : Type 0
Parser = Str → Option (Str × Bool)

abbrev default_cpu_limit : Str
default_cpu_limit = lit "2000m"

abbrev default_mem_limit : Str
default_mem_limit = lit "5Gi"

abbrev default_cpu_request : Str
default_cpu_request = lit "1000m"

abbrev default_mem_request : Str
default_mem_request = lit "1Gi"

-- An entry is set to its default, or to the value given; a value of zero or less removes it.
unfoldable pub entry : Parser → Str → Str → Str → Result (GoMap Str)
entry parse kind default value =
    if str_eq value [] then ok ((kind, default) ∷ []) else elim (parse value) [
      | none ↦ err (other "quantity")
      | some (quantity, positive) ↦ ok (if positive then (kind, quantity) ∷ [] else [])
    ]

infixl 5 ◌>>=◌
abbrev ◌>>=◌ : {A B : Type 0} → Result A → (A → Result B) → Result B
ok a >>= f = f a
err e >>= f = err e
diverged >>= f = diverged

unfoldable pub parse_pod_resources : Parser → Str → Str → Str → Str → Result Requirements
unfolding entry
parse_pod_resources parse cpu_limit memory_limit cpu_request memory_request = do
  cpu ← entry parse (lit "cpu") default_cpu_limit cpu_limit
  memory ← entry parse (lit "memory") default_mem_limit memory_limit
  cpu' ← entry parse (lit "cpu") default_cpu_request cpu_request
  memory' ← entry parse (lit "memory") default_mem_request memory_request
  ok (record { limits = cpu ++ memory; requests = cpu' ++ memory' })
