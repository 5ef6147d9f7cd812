-- ===== src/Juicefs/Provider/Limits.antt =====
-- The limit of the buffer in validOptions of pkg/juicefs/juicefs.go.
use juicedata_juicefs_csi_dr.Prelude.{
  ℕ, zero, suc, ◌≡◌, ◌≤◌, refl, Option, none, some, List, [], ◌∷◌, Str, lit, str_eq, split,
  trim_space, get_elem?, GoMap, arith, subst,
}
use juicedata_juicefs_csi_dr.Util.Sizes.{parse_to_bytes}
use juicedata_juicefs_csi_dr.Kube.{Result, ok, err, diverged}
use juicedata_juicefs_csi_dr.Juicefs.Provider.Options.{
  Sizes, memory_limit, within, valid_parts, valid_option, valid_options, add_option,
}

-- The buffer has a size, and it is within the limit of the mount pod's memory.
pub record IsWithin (sizes : Sizes) (vol_ctx : GoMap Str) (v : Str) : Type 0 where
  pub limit : ℕ
  pub size : ℕ
  pub limited : sizes.quantity_value (memory_limit vol_ctx) ≡ some limit
  pub sized : parse_to_bytes sizes.scale v ≡ some size
  pub below : size ≤ limit

within-IsWithin :
    (sizes : Sizes) (vol_ctx : GoMap Str) (v option o : Str) (limit size : Option ℕ)
    → sizes.quantity_value (memory_limit vol_ctx) ≡ limit
    → parse_to_bytes sizes.scale v ≡ size
    → within limit size option ≡ ok o
    → IsWithin sizes vol_ctx v
within-IsWithin sizes vol_ctx v option o none size l s h = cc
within-IsWithin sizes vol_ctx v option o (some limit) none l s h = cc
within-IsWithin sizes vol_ctx v option o (some limit) (some size) l s h = record {
  limit = limit;
  size = size;
  limited = l;
  sized = s;
  below = ground arith;
}

option-IsWithin :
    (sizes : Sizes) (vol_ctx : GoMap Str) (option v o : Str)
    → split (trim_space option) (lit "=") ≡ lit "buffer-size" ∷ v ∷ []
    → valid_option sizes vol_ctx option ≡ ok o
    → IsWithin sizes vol_ctx v
unfolding valid_option valid_parts str_eq
option-IsWithin sizes vol_ctx option v o parts h =
    within-IsWithin sizes vol_ctx v _ o _ _ refl refl (rw parts at h)

head-ok :
    (r : Result Str) (rs : Result (List Str)) (os : List Str)
    → add_option r rs ≡ ok os
    → (o : Str) × (os' : List Str) × (r ≡ ok o) × (rs ≡ ok os')
head-ok (ok o) (ok os') os h = (o, os', refl, refl)
head-ok (ok o) (err e) os h = cc
head-ok (ok o) diverged os h = cc
head-ok (err e) rs os h = cc
head-ok diverged rs os h = cc

-- Options that are accepted keep each buffer within the memory limit of the mount pod, where the key
-- stands right before the `=`.
pub valid_options-IsWithin :
    (sizes : Sizes) (vol_ctx : GoMap Str) (options os : List Str) (i : ℕ) (option v : Str)
    → valid_options sizes vol_ctx options ≡ ok os
    → get_elem? options i ≡ some option
    → split (trim_space option) (lit "=") ≡ lit "buffer-size" ∷ v ∷ []
    → IsWithin sizes vol_ctx v
unfolding valid_options
valid_options-IsWithin sizes vol_ctx [] os i option v h found parts = absurd (cc)
valid_options-IsWithin sizes vol_ctx (x ∷ options) os zero option v h found parts =
    let (o, os', head, tail) = head-ok (valid_option sizes vol_ctx x) _ os h in
    let e : x ≡ option = cc in
    option-IsWithin sizes vol_ctx option v o parts
      (subst (λ y. valid_option sizes vol_ctx y ≡ ok o) e head)
valid_options-IsWithin sizes vol_ctx (x ∷ options) os (suc i) option v h found parts =
    let (o, os', head, tail) = head-ok (valid_option sizes vol_ctx x) _ os h in
    valid_options-IsWithin sizes vol_ctx options os' i option v tail found parts
