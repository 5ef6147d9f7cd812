-- ===== src/Driver/Controller/Volumes.antt =====
-- What CreateVolume and ValidateVolumeCapabilities of pkg/driver/controller.go promise.
use juicedata_juicefs_csi_dr.Prelude.{
  ℕ, ◌≤◌, ◌<◌, ◌≡◌, ◌↔◌, inl, inr, refl, ap, true, false, Option, none, some, List, Str, lookup,
  insert, lookup-insert, insert-insert_self, str_eq_refl, any, is_empty, arith, Option-cases,
  Bool-cases,
}
use juicedata_juicefs_csi_dr.Kube.{ok, err, status, invalid_argument, already_exists}
use juicedata_juicefs_csi_dr.Driver.Capability.{VolumeCapability, is_valid_volume_capabilities}
use juicedata_juicefs_csi_dr.Driver.Controller.Create.{
  Volumes, Volume, CreateRequest, is_read_only, is_too_small, created, record_volume,
  create_supported, create_volume, validate_volume_capabilities,
}

-- What a request needs to be served in the state `vols`.
pub record IsAcceptable (vols : Volumes) (req : CreateRequest) (caps : List VolumeCapability)
    : Type 0 where
  pub named : is_empty req.name ≡ false
  pub given : req.capabilities ≡ some caps
  pub valid : is_valid_volume_capabilities caps ≡ true
  pub writable : any is_read_only caps ≡ false
  pub fits : (capacity : ℕ) → lookup req.name vols ≡ some capacity → req.required_bytes ≤ capacity

fits-not_too_small :
    (vols : Volumes) (name : Str) (n : ℕ)
    → ((capacity : ℕ) → lookup name vols ≡ some capacity → n ≤ capacity)
    → is_too_small vols name n ≡ false
unfolding is_too_small
fits-not_too_small vols name n h = elim (Option-cases (lookup name vols)) [
  | inl e ↦ rw (e, is_too_small)
  | inr (c, e) ↦ rw (e, is_too_small) (ground (arith, h c e))
]

pub create_volume-served :
    (vols : Volumes) (req : CreateRequest) (caps : List VolumeCapability)
    → IsAcceptable vols req caps
    → create_volume vols req ≡ (ok (created req), insert req.name req.required_bytes vols)
unfolding create_volume create_supported record_volume
create_volume-served vols req caps h =
    ground (arith, fits-not_too_small vols req.name req.required_bytes h.fits)

supported-ok :
    (vols : Volumes) (req : CreateRequest) (o : Option (List VolumeCapability)) (v : Volume)
    → (create_supported vols req o).0 ≡ ok v
    → (caps : List VolumeCapability) × (o ≡ some caps)
      × (is_valid_volume_capabilities caps ≡ true)
      × (any is_read_only caps ≡ false)
      × (is_too_small vols req.name req.required_bytes ≡ false)
unfolding create_supported record_volume
supported-ok vols req none v h = absurd (ground arith)
supported-ok vols req (some caps) v h = (caps, refl, ground arith, ground arith, ground arith)

small-fits :
    (vols : Volumes) (name : Str) (n capacity : ℕ)
    → is_too_small vols name n ≡ false
    → lookup name vols ≡ some capacity
    → n ≤ capacity
unfolding is_too_small
small-fits vols name n capacity h e = ground arith

-- A request that gets a volume was acceptable.
pub create_volume-IsAcceptable :
    (vols : Volumes) (req : CreateRequest) (v : Volume)
    → (create_volume vols req).0 ≡ ok v
    → (caps : List VolumeCapability) × IsAcceptable vols req caps
unfolding create_volume
create_volume-IsAcceptable vols req v h = elim (Bool-cases (is_empty req.name)) [
  | inl empty ↦ absurd (ground arith)
  | inr named ↦
      let (caps, given, valid, writable, small) =
        supported-ok vols req req.capabilities v (ground arith) in
      (
        caps,
        record {
          named = named;
          given = given;
          valid = valid;
          writable = writable;
          fits = λ capacity e. small-fits vols req.name req.required_bytes capacity small e;
        },
      )
]

-- The reply and the new state of a request that is served, and that it is the acceptable ones.
pub create_volume_iff :
    (vols : Volumes) (req : CreateRequest)
    → ((create_volume vols req ≡ (ok (created req), insert req.name req.required_bytes vols))
        ↔ ((caps : List VolumeCapability) × IsAcceptable vols req caps))
create_volume_iff vols req = (
  λ e. create_volume-IsAcceptable vols req (created req) (ap (λ p. p.0) e),
  λ (caps, h). create_volume-served vols req caps h,
)

recorded_fits :
    (vols : Volumes) (name : Str) (n : ℕ) (capacity : ℕ)
    → lookup name (insert name n vols) ≡ some capacity
    → n ≤ capacity
recorded_fits vols name n capacity e =
    ground (arith, lookup-insert name name n vols, str_eq_refl name)

-- Asking again for a volume that was created gives the same reply and changes nothing.
pub create_volume_idem :
    (vols : Volumes) (req : CreateRequest) (v : Volume)
    → (create_volume vols req).0 ≡ ok v
    → create_volume (create_volume vols req).1 req ≡ create_volume vols req
create_volume_idem vols req v h =
    let (caps, a) = create_volume-IsAcceptable vols req v h in
    let served = create_volume-served vols req caps a in
    let again = create_volume-served (insert req.name req.required_bytes vols) req caps (record {
      named = a.named;
      given = a.given;
      valid = a.valid;
      writable = a.writable;
      fits = recorded_fits vols req.name req.required_bytes;
    }) in
    rw (served, again, insert-insert_self req.name req.required_bytes req.required_bytes vols)

-- The same request with another capacity.
abbrev pub resized : CreateRequest → ℕ → CreateRequest
resized req n = record req { required_bytes = n }

refused_small :
    (vols : Volumes) (req : CreateRequest) (caps : List VolumeCapability) (capacity : ℕ)
    → is_empty req.name ≡ false
    → req.capabilities ≡ some caps
    → is_valid_volume_capabilities caps ≡ true
    → lookup req.name vols ≡ some capacity
    → capacity < req.required_bytes
    → (create_volume vols req).0 ≡ err (status already_exists "capacity")
unfolding create_volume create_supported record_volume is_too_small
refused_small vols req caps capacity named given valid e lt = ground arith

-- A request for less lowers the recorded capacity, so that the request which created the volume is
-- refused when it comes again.
pub create_volume_forgets :
    (vols : Volumes) (req : CreateRequest) (v : Volume) (less : ℕ)
    → (create_volume vols req).0 ≡ ok v
    → less < req.required_bytes
    → let shrunk = (create_volume (create_volume vols req).1 (resized req less)).1 in
      (create_volume shrunk req).0 ≡ err (status already_exists "capacity")
create_volume_forgets vols req v less h lt =
    let (caps, a) = create_volume-IsAcceptable vols req v h in
    let served = create_volume-served vols req caps a in
    let grown : Volumes = insert req.name req.required_bytes vols in
    let shrunk = create_volume-served grown (resized req less) caps (record {
      named = a.named;
      given = a.given;
      valid = a.valid;
      writable = a.writable;
      fits =
          λ capacity e. ground (arith, recorded_fits vols req.name req.required_bytes capacity e);
    }) in
    rw (served, shrunk)
      (refused_small (insert req.name less grown) req caps less a.named a.given a.valid
        (ground (arith, lookup-insert req.name req.name less grown, str_eq_refl req.name)) lt)

-- A named request whose capabilities are supported, with a read-only one among them, and which asks
-- for no more than the recorded capacity, is refused, and yet the volume counts as created.
pub read_only_recorded :
    (vols : Volumes) (req : CreateRequest) (caps : List VolumeCapability)
    → is_empty req.name ≡ false
    → req.capabilities ≡ some caps
    → is_empty caps ≡ false
    → is_valid_volume_capabilities caps ≡ true
    → any is_read_only caps ≡ true
    → is_too_small vols req.name req.required_bytes ≡ false
    → ((create_volume vols req).0 ≡ err (status invalid_argument "read-only mode cannot be used"))
      × (validate_volume_capabilities (create_volume vols req).1 req.name caps ≡ ok true)
unfolding create_volume create_supported record_volume validate_volume_capabilities
read_only_recorded vols req caps named given some_cap valid read_only fits =
    ground (arith, lookup-insert req.name req.name req.required_bytes vols, str_eq_refl req.name)
