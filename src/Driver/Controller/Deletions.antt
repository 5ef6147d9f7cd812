-- ===== src/Driver/Controller/Deletions.antt =====
-- DeleteVolume of pkg/driver/controller.go under concurrent requests: the lock of a volume.
use juicedata_juicefs_csi_dr.Prelude.{
  ◌≡◌, ◌≢◌, inl, inr, refl, sym, ◌∙◌, ap, true, false, ◌||◌, ◌&&◌, none, List, [], ◌∷◌, Str, str_eq,
  str_eq_iff, GoMap, lookup, lookup-delete, contains_string, keep, arith, if◌then◌else◌, Bool-cases,
}
use juicedata_juicefs_csi_dr.Kube.{Result, is_ok, ok, err, diverged}
use juicedata_juicefs_csi_dr.Driver.Locks.{VolumeLocks, try_acquire, release}
use juicedata_juicefs_csi_dr.Driver.Controller.Delete.{
  Service, Begun, replied, deleting, begin_delete, finish_delete, delete_volume,
}

contains-release :
    (locks : VolumeLocks) (a b : Str)
    → contains_string (release locks a) b ≡ (if str_eq a b then false else contains_string locks b)
unfolding release contains_string keep
contains-release [] a b = ground arith
contains-release (x ∷ locks) a b =
    ground (arith, str_eq_iff x a, str_eq_iff x b, str_eq_iff a b, contains-release locks a b)

-- The service, and the ids of the deletions that run: their provider has not answered yet.
pub record System : Type 0 where
  pub service : Service
  pub running : List Str

-- What concurrent requests do, in any order. `other` is a request that begins and is answered at
-- once, `enter` one that gets the lock, and `leave` the answer of the provider.
pub data Step (s : System) : System → Type 0 where
  other :
      (id : Str) (secrets : GoMap Str) (r : Result (Unit {0})) (d : Service)
      → begin_delete s.service id secrets ≡ (replied r, d)
      → Step s (record s { service = d })
  enter :
      (id : Str) (secrets : GoMap Str) (d : Service)
      → begin_delete s.service id secrets ≡ (deleting, d)
      → Step s (record { service = d; running = id ∷ s.running })
  leave :
      (id : Str) (answer : Result (Unit {0}))
      → contains_string s.running id ≡ true
      → answer ≢ diverged
      → Step s (record {
        service = (finish_delete s.service id answer).1;
        running = release s.running id;
      })

pub data Reach (s : System) : System → Type 0 where
  here : Reach s s
  next : {t u : System} → Reach s t → Step t u → Reach s u

-- Each id runs once.
abbrev pub Distinct : List Str → Type 0
Distinct [] = Unit {0}
Distinct (x ∷ xs) = (contains_string xs x ≡ false) × Distinct xs

-- No volume is deleted twice at a time, and the locks are those of the deletions that run.
pub record IsExclusive (s : System) : Type 0 where
  pub distinct : Distinct s.running
  pub locked : (id : Str) → contains_string s.service.locks id ≡ contains_string s.running id

absent-release :
    (xs : List Str) (x a : Str)
    → contains_string xs x ≡ false
    → contains_string (release xs a) x ≡ false
absent-release xs x a h = contains-release xs a x ∙ ground arith

Distinct-release : (xs : List Str) (a : Str) → Distinct xs → Distinct (release xs a)
unfolding release keep
Distinct-release [] a h = tt
Distinct-release (x ∷ xs) a h = elim (Bool-cases (str_eq x a)) [
  | inl hit ↦ rw hit (Distinct-release xs a h.1)
  | inr miss ↦ rw miss (absent-release xs x a h.0, Distinct-release xs a h.1)
]

begin-replied :
    (d d' : Service) (id : Str) (secrets : GoMap Str) (r : Result (Unit {0}))
    → begin_delete d id secrets ≡ (replied r, d')
    → d' ≡ d
unfolding begin_delete try_acquire
begin-replied d d' id secrets r e = ground arith

begin-deleting :
    (d d' : Service) (id : Str) (secrets : GoMap Str)
    → begin_delete d id secrets ≡ (deleting, d')
    → (contains_string d.locks id ≡ false) × (d' ≡ record d { locks = id ∷ d.locks })
unfolding begin_delete try_acquire
begin-deleting d d' id secrets e = ground arith

locks-finish :
    (d : Service) (id : Str) (answer : Result (Unit {0}))
    → answer ≢ diverged
    → (finish_delete d id answer).1.locks ≡ release d.locks id
unfolding finish_delete
locks-finish d id (ok u) h = refl
locks-finish d id (err e) h = refl
locks-finish d id diverged h = absurd (h refl)

-- Every step keeps the locks exact and the running deletions distinct.
pub Step-IsExclusive : {s u : System} → Step s u → IsExclusive s → IsExclusive u
Step-IsExclusive {s} (other id secrets r d e) h = rw (begin-replied s.service d id secrets r e) h
Step-IsExclusive {s} (enter id secrets d e) h =
    let (free, e') = begin-deleting s.service d id secrets e in
    rw e' (record {
      distinct = (sym (h.locked id) ∙ free, h.distinct);
      locked = λ j. unfold contains_string in ap (λ b. str_eq id j || b) (h.locked j);
    })
Step-IsExclusive {s} (leave id answer member returned) h = record {
  distinct = Distinct-release s.running id h.distinct;
  locked = λ j. rw (
    locks-finish s.service id answer returned,
    contains-release s.service.locks id j,
    contains-release s.running id j,
    h.locked j,
  );
}

-- From a service without locks, whatever the requests and the order of their answers, a volume is
-- never in two deletions at a time, and exactly the volumes in deletion are locked.
pub Reach-IsExclusive :
    (s : System) {u : System} → s.running ≡ [] → s.service.locks ≡ [] → Reach s u → IsExclusive u
Reach-IsExclusive s idle free here = record {
  distinct = rw idle tt;
  locked = λ id. rw (idle, free);
}
Reach-IsExclusive s idle free (next r step) =
    Step-IsExclusive step (Reach-IsExclusive s idle free r)

after_enter :
    (d : Service) (id j : Str) (answer : Result (Unit {0}))
    → answer ≢ diverged
    → contains_string d.locks id ≡ false
    → contains_string (finish_delete (record d { locks = id ∷ d.locks }) id answer).1.locks j
      ≡ contains_string d.locks j
after_enter d id j answer returned free =
    rw
      (
        locks-finish (record d { locks = id ∷ d.locks }) id answer returned,
        contains-release (id ∷ d.locks) id j,
      )
      (unfold contains_string in ground (arith, str_eq_iff id j))

-- A request that runs alone leaves the locks as they were, on every path, if the provider answers.
pub locks-delete_volume :
    (d : Service) (id : Str) (secrets : GoMap Str) (answer : Result (Unit {0}))
    → answer ≢ diverged
    → (j : Str)
    → contains_string (delete_volume d id secrets answer).1.locks j ≡ contains_string d.locks j
unfolding delete_volume
locks-delete_volume d id secrets answer returned j = go (begin_delete d id secrets) refl
  where
    go :
        (b : Begun × Service)
        → begin_delete d id secrets ≡ b
        → contains_string (delete_volume d id secrets answer).1.locks j ≡ contains_string d.locks j
    go (replied r, d') e = rw (e, begin-replied d d' id secrets r e)
    go (deleting, d') e =
        let (free, e') = begin-deleting d d' id secrets e in
        rw (e, e') (after_enter d id j answer returned free)

-- The record of a volume goes when its deletion succeeds; every other record stays, and a deletion
-- that fails changes none.
pub lookup-finish_delete :
    (d : Service) (id j : Str) (answer : Result (Unit {0}))
    → lookup j (finish_delete d id answer).1.vols
      ≡ (if is_ok answer && str_eq id j then none else lookup j d.vols)
unfolding finish_delete
lookup-finish_delete d id j (ok u) = lookup-delete id j d.vols
lookup-finish_delete d id j (err e) = refl
lookup-finish_delete d id j diverged = refl
