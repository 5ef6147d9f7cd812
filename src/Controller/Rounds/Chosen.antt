-- ===== src/Controller/Rounds/Chosen.antt =====
-- What doReconcile of pkg/controller/reconciler.go chooses, told by the visits of pods alone.
use juicedata_juicefs_csi_dr.Prelude.{
  ℕ, suc, ◌≡◌, ◌≢◌, ◌↔◌, ◌⊎◌, refl, sym, ◌∙◌, ap, inl, inr, ◌+◌, ◌≤◌, ◌==◌, ==_iff, Bool-cases,
  true, false, not, Option, none, some, List, [], ◌∷◌, Str, lit, str_eq, str_eq_iff, GoMap, lookup,
  insert, lookup-insert, if◌then◌else◌, arith,
}
use juicedata_juicefs_csi_dr.Kube.{Pod}
use juicedata_juicefs_csi_dr.Controller.PodDriver.Annotations.{
  PodStatus, pod_ready, pod_error, pod_deleted, pod_pending, get_pod_status,
}
use juicedata_juicefs_csi_dr.Controller.Queued.{value_is_iff}
use juicedata_juicefs_csi_dr.Controller.Rounds.{
  Synced, status_code, synced, is_mount_pod, is_due, is_skipped, is_recent, choose,
}

-- A pod as the loop meets it, and when.
abbrev pub Visit : Type 0
Visit = ℕ × Pod

pub record IsMountPod (mount_namespace : Str) (pod : Pod) : Type 0 where
  pub here : pod.namespace ≡ mount_namespace
  pub labelled : lookup (lit "app.kubernetes.io/name") pod.labels ≡ some (lit "juicefs-mount")

-- No visit is of the name.
pub data Unseen (name : Str) : List Visit → Type 0 where
  none_yet : Unseen name []
  not_that :
      {visit : Visit} {visits : List Visit}
      → visit.1.name ≢ name
      → Unseen name visits
      → Unseen name (visit ∷ visits)

-- The first visit of the name in the list, which has the latest visit first.
pub data Latest (name : Str) (earlier : Visit) : List Visit → Type 0 where
  here : {visits : List Visit} → earlier.1.name ≡ name → Latest name earlier (earlier ∷ visits)
  there :
      {visit : Visit} {visits : List Visit}
      → visit.1.name ≢ name
      → Latest name earlier visits
      → Latest name earlier (visit ∷ visits)

-- Within ten minutes, the pod shows the same status again.
pub record Repeats (earlier visit : Visit) : Type 0 where
  pub status : get_pod_status (some earlier.1) ≡ get_pod_status (some visit.1)
  pub soon : suc visit.0 ≤ earlier.0 + 600

-- Of the visits, those of mount pods are chosen that repeat no earlier one: the latest visit of the
-- same name that was chosen itself, with `before` the chosen ones so far.
pub data Rounds (mount_namespace : Str) : List Visit → List Visit → List Pod → Type 0 where
  done : {before : List Visit} → Rounds mount_namespace before [] []
  foreign :
      {before visits : List Visit} {visit : Visit} {chosen : List Pod}
      → (IsMountPod mount_namespace visit.1 → ⊥)
      → Rounds mount_namespace before visits chosen
      → Rounds mount_namespace before (visit ∷ visits) chosen
  again :
      {before visits : List Visit} {visit : Visit} {chosen : List Pod} (earlier : Visit)
      → Latest visit.1.name earlier before
      → Repeats earlier visit
      → Rounds mount_namespace before visits chosen
      → Rounds mount_namespace before (visit ∷ visits) chosen
  first :
      {before visits : List Visit} {visit : Visit} {chosen : List Pod}
      → IsMountPod mount_namespace visit.1
      → Unseen visit.1.name before
      → Rounds mount_namespace (visit ∷ before) visits chosen
      → Rounds mount_namespace before (visit ∷ visits) (visit.1 ∷ chosen)
  renewed :
      {before visits : List Visit} {visit : Visit} {chosen : List Pod} (earlier : Visit)
      → IsMountPod mount_namespace visit.1
      → Latest visit.1.name earlier before
      → (Repeats earlier visit → ⊥)
      → Rounds mount_namespace (visit ∷ before) visits chosen
      → Rounds mount_namespace before (visit ∷ visits) (visit.1 ∷ chosen)

status_of : ℕ → PodStatus
status_of n =
    if n == 0
    then pod_ready
    else if n == 1
    then pod_error
    else if n == 2
    then pod_deleted
    else pod_pending

status_of-code : (a : PodStatus) → status_of (status_code a) ≡ a
unfolding status_of status_code
status_of-code pod_ready = refl
status_of-code pod_error = refl
status_of-code pod_deleted = refl
status_of-code pod_pending = refl

status_code-injective : (a b : PodStatus) → status_code a ≡ status_code b → a ≡ b
status_code-injective a b e = sym (status_of-code a) ∙ (ap status_of e ∙ status_of-code b)

is_recent_iff :
    (earlier visit : Visit)
    → (is_recent visit.0 (get_pod_status (some visit.1)) (some (synced earlier.0 earlier.1)) ≡ true)
      ↔ Repeats earlier visit
unfolding is_recent
is_recent_iff earlier visit =
    let a = get_pod_status (some earlier.1) in
    let b = get_pod_status (some visit.1) in
    (
      (λ h. record {
        status =
            status_code-injective a b ((==_iff (status_code a) (status_code b)).0 (ground arith));
        soon = ground arith;
      }),
      (λ r.
          let same = (==_iff (status_code a) (status_code b)).1 (ap status_code r.status) in
          let soon = r.soon in ground arith),
    )

is_mount_pod_iff :
    (mount_namespace : Str) (pod : Pod)
    → (is_mount_pod mount_namespace pod ≡ true) ↔ IsMountPod mount_namespace pod
unfolding is_mount_pod
is_mount_pod_iff mount_namespace pod =
    let value =
      value_is_iff (lookup (lit "app.kubernetes.io/name") pod.labels) (lit "juicefs-mount") in
    (
      (λ h. record {
        here = (str_eq_iff pod.namespace mount_namespace).0 (ground arith);
        labelled = value.0 (ground arith);
      }),
      (λ m.
          let same = (str_eq_iff pod.namespace mount_namespace).1 m.here in
          let labelled = value.1 m.labelled in ground arith),
    )

-- The record of the name after the chosen visits.
unfoldable recorded : Str → List Visit → Option Synced
recorded name [] = none
recorded name (visit ∷ visits) =
    if str_eq visit.1.name name then some (synced visit.0 visit.1) else recorded name visits

recorded-cases :
    (name : Str) (before : List Visit)
    → ((recorded name before ≡ none) × Unseen name before)
      ⊎ ((earlier : Visit) × Latest name earlier before
          × (recorded name before ≡ some (synced earlier.0 earlier.1)))
unfolding recorded
recorded-cases name [] = inl (refl, none_yet)
recorded-cases name (visit ∷ before) = elim (Bool-cases (str_eq visit.1.name name)) [
  | inl same ↦ inr (visit, here ((str_eq_iff visit.1.name name).0 same), rw same refl)
  | inr differs ↦
      let other' : visit.1.name ≢ name = λ e. ground (arith, str_eq_iff visit.1.name name) in
      elim (recorded-cases name before) [
        | inl (fresh, unseen) ↦ inl (rw differs fresh, not_that other' unseen)
        | inr (earlier, latest, known) ↦ inr (earlier, there other' latest, rw differs known)
      ]
]

-- The map has the record of each name.
Records : GoMap Synced → List Visit → Type 0
Records last before = (name : Str) → lookup name last ≡ recorded name before

insert-Records :
    (last : GoMap Synced) (before : List Visit) (now : ℕ) (pod : Pod)
    → Records last before
    → Records (insert pod.name (synced now pod) last) ((now, pod) ∷ before)
unfolding Records recorded
insert-Records last before now pod known name =
    lookup-insert pod.name name (synced now pod) last
    ∙ ap (λ rest. if str_eq pod.name name then some (synced now pod) else rest) (known name)

due-known :
    (ns : Str) (now : ℕ) (last : GoMap Synced) (pod : Pod) (r : Option Synced)
    → lookup pod.name last ≡ r
    → is_mount_pod ns pod ≡ true
    → is_due ns now last pod ≡ not (is_recent now (get_pod_status (some pod)) r)
unfolding is_due is_skipped
due-known ns now last pod r e mount_pod =
    rw mount_pod (ap (λ o. not (is_recent now (get_pod_status (some pod)) o)) e)

due-foreign :
    (ns : Str) (now : ℕ) (last : GoMap Synced) (pod : Pod)
    → is_mount_pod ns pod ≡ false
    → is_due ns now last pod ≡ false
unfolding is_due
due-foreign ns now last pod other' = rw other' refl

choose-from :
    (ns : Str) (visits before : List Visit) (last : GoMap Synced)
    → Records last before
    → Rounds ns before visits (choose ns visits last).1
unfolding choose Records is_recent
choose-from ns [] before last known = done
choose-from ns ((now, pod) ∷ visits) before last known =
    let next = insert-Records last before now pod known in
    elim (Bool-cases (is_mount_pod ns pod)) [
      | inr other' ↦ rw (due-foreign ns now last pod other') (
          foreign (λ m. let clash = sym other' ∙ (is_mount_pod_iff ns pod).1 m in absurd (cc))
            (choose-from ns visits before last known))
      | inl mount_pod ↦
          let m = (is_mount_pod_iff ns pod).0 mount_pod in
          elim (recorded-cases pod.name before) [
            | inl (fresh, unseen) ↦
                let due : is_due ns now last pod ≡ true =
                  due-known ns now last pod none (known pod.name ∙ fresh) mount_pod in
                rw due (first m unseen (choose-from ns visits ((now, pod) ∷ before) _ next))
            | inr (earlier, latest, e) ↦
                let due = due-known ns now last pod _ (known pod.name ∙ e) mount_pod in
                elim (Bool-cases
                  (is_recent now (get_pod_status (some pod)) (some (synced earlier.0 earlier.1)))) [
                    | inl recent ↦
                        let undue : is_due ns now last pod ≡ false = due ∙ ap not recent in
                        rw undue (
                          again earlier latest ((is_recent_iff earlier (now, pod)).0 recent)
                            (choose-from ns visits before last known))
                    | inr old ↦
                        let due' : is_due ns now last pod ≡ true = due ∙ ap not old in
                        rw due' (
                          renewed earlier m latest
                            (λ r.
                              let clash = sym old ∙ (is_recent_iff earlier (now, pod)).1 r in
                              absurd (cc))
                            (choose-from ns visits ((now, pod) ∷ before) _ next))
                  ]
          ]
    ]

-- From the start, doReconcile chooses exactly the visits of mount pods that do not repeat the latest
-- chosen visit of the same name, if there is one: within ten minutes and with the same status.
pub choose-Rounds :
    (mount_namespace : Str) (visits : List Visit)
    → Rounds mount_namespace [] visits (choose mount_namespace visits []).1
unfolding Records recorded lookup
choose-Rounds mount_namespace visits = choose-from mount_namespace visits [] [] (λ name. refl)
