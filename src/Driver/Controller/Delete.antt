-- ===== src/Driver/Controller/Delete.antt =====
-- DeleteVolume of pkg/driver/controller.go, and CheckDynamicPV of pkg/util/util.go. Requests run
-- concurrently: what stands before the call of the provider and what follows it are two steps.
use juicedata_juicefs_csi_dr.Prelude.{
  ℕ, zero, suc, Bool, true, false, not, ◌&&◌, ◌||◌, List, [], ◌∷◌, ◌++◌, Str, lit, GoMap, delete,
  leb, ◌==◌, is_empty, map, if◌then◌else◌,
}
use juicedata_juicefs_csi_dr.Kube.{
  Result, ok, err, diverged, status, invalid_argument, aborted, internal,
}
use juicedata_juicefs_csi_dr.Driver.Locks.{VolumeLocks, try_acquire, release}
use juicedata_juicefs_csi_dr.Driver.Controller.Create.{Volumes}

abbrev is_word : ℕ → Bool
is_word c =
    (leb b'a' c && leb c b'z')
    || ((leb b'A' c && leb c b'Z') || ((leb b'0' c && leb c b'9') || c == b'_'))

abbrev words : ℕ → List (ℕ → Bool)
words zero = []
words (suc n) = is_word ∷ words n

abbrev dash : List (ℕ → Bool)
dash = (λ c. c == b'-') ∷ []

abbrev quad : List (ℕ → Bool)
quad = dash ++ words 4

-- The regular expression `pvc-\w{8}(-\w{4}){3}-\w{12}`, a test for each byte.
abbrev dynamic_pattern : List (ℕ → Bool)
dynamic_pattern =
    map (λ p c. c == p) (lit "pvc-")
    ++ (words 8 ++ (quad ++ (quad ++ (quad ++ (dash ++ words 12)))))

unfoldable pub matches_here : List (ℕ → Bool) → Str → Bool
matches_here [] s = true
matches_here (p ∷ ps) [] = false
matches_here (p ∷ ps) (c ∷ s) = p c && matches_here ps s

-- The expression is not anchored.
unfoldable pub matches_somewhere : List (ℕ → Bool) → Str → Bool
matches_somewhere ps [] = matches_here ps []
matches_somewhere ps (c ∷ s) = matches_here ps (c ∷ s) || matches_somewhere ps s

unfoldable pub check_dynamic_pv : Str → Bool
check_dynamic_pv name = matches_somewhere dynamic_pattern name

pub record Service : Type 0 where
  pub vols : Volumes
  pub locks : VolumeLocks

-- The reply is known, or the provider is to delete the volume under its lock.
pub data Begun : Type 0 where
  replied : Result (Unit {0}) → Begun
  deleting : Begun

abbrev after_acquire : Service → Bool × VolumeLocks → Begun × Service
after_acquire d (true, locks) = (deleting, record d { locks = locks })
after_acquire d (false, locks) =
    (replied (err (status aborted "being used by another operation")), d)

unfoldable pub begin_delete : Service → Str → GoMap Str → Begun × Service
begin_delete d volume_id secrets =
    if is_empty volume_id
    then (replied (err (status invalid_argument "Volume ID not provided")), d)
    else if not (check_dynamic_pv volume_id)
    then (replied (ok tt), d)
    else if is_empty secrets
    then (replied (ok tt), d)
    else after_acquire d (try_acquire d.locks volume_id)

-- The entry goes on success only; the lock goes in any case.
unfoldable pub finish_delete : Service → Str → Result (Unit {0}) → Result (Unit {0}) × Service
finish_delete d volume_id (ok u) =
    (ok tt, record { vols = delete volume_id d.vols; locks = release d.locks volume_id })
finish_delete d volume_id (err e) = (
  err (status internal "Could not delVol in juicefs"),
  record d { locks = release d.locks volume_id },
)
finish_delete d volume_id diverged = (diverged, d)

abbrev conclude : Str → Begun × Service → Result (Unit {0}) → Result (Unit {0}) × Service
conclude volume_id (replied r, d) answer = (r, d)
conclude volume_id (deleting, d) answer = finish_delete d volume_id answer

-- One request alone; `answer` is what JfsDeleteVol returns, if it is called.
unfoldable pub delete_volume :
    Service → Str → GoMap Str → Result (Unit {0}) → Result (Unit {0}) × Service
delete_volume d volume_id secrets answer =
    conclude volume_id (begin_delete d volume_id secrets) answer
