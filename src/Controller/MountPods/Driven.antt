-- ===== src/Controller/MountPods/Driven.antt =====
-- What Reconcile of pkg/controller/pod_controller.go hands to the pod driver.
use juicedata_juicefs_csi_dr.Prelude.{
  ◌≡◌, true, false, some, List, [], ◌∷◌, ◌++◌, Str, is_empty, get_str, refl, not, if◌then◌else◌,
  ◌-◌, ℕ, Option, none, ◌⊎◌, ◌↔◌, inl, inr, lit, str_eq, str_eq_iff, Bool-cases, Option-cases,
  arith, sym, ◌∙◌,
}
use juicedata_juicefs_csi_dr.Kube.{
  Pod, Pv, MountInfo, annotations_of, unique_id_key, Env, Trace, ok, Keeps, Yields, pure-Keeps,
  bind-Keeps, from-Yields, pure-Yields, list_pod, list_persistent_volumes, parse_mount_info,
  get_pod, if-Keeps, attempt-Keeps, ask-Keeps, bind_yield-Keeps, fail-Keeps, pure, fail, other,
  unless-Keeps, Result, err, diverged, is_not_found, lift, Query, CsiSource, attempt-Yields,
}
use juicedata_juicefs_csi_dr.Controller.MountTable.{MountInfoTable, set_pods_status}
use juicedata_juicefs_csi_dr.Controller.MountPods.{
  on_this_node, related_pvs, pvc_namespaces, app_query, list_app_pods, Option, requeue_after, ℕ,
  reconcile_mount_pod, run, delete_delay_at_key, drive, reconcile_on_node, reconcile_found,
  with_related, Bool, none, fail, other, is_related, source_relates,
}

-- The volume is of the driver, and has the unique id as its handle or as its storage class.
pub record IsRelated (driver_name unique_id : Str) (pv : Pv) : Type 0 where
  pub csi : CsiSource
  pub source : pv.csi ≡ some csi
  pub driver : csi.driver ≡ driver_name
  pub marked : is_empty unique_id ≡ false
  pub names : (csi.volume_handle ≡ unique_id) ⊎ (pv.storage_class ≡ unique_id)

-- The namespaces of the claims of the related volumes, in the order of the volumes.
pub data Claims (driver_name unique_id : Str) : List Pv → List Str → Type 0 where
  no_more : Claims driver_name unique_id [] []
  claimed :
      {pv : Pv} {pvs : List Pv} {namespaces : List Str} (name namespace : Str)
      → IsRelated driver_name unique_id pv
      → pv.claim_ref ≡ some (name, namespace)
      → Claims driver_name unique_id pvs namespaces
      → Claims driver_name unique_id (pv ∷ pvs) (namespace ∷ namespaces)
  unclaimed :
      {pv : Pv} {pvs : List Pv} {namespaces : List Str}
      → IsRelated driver_name unique_id pv
      → pv.claim_ref ≡ none
      → Claims driver_name unique_id pvs namespaces
      → Claims driver_name unique_id (pv ∷ pvs) namespaces
  unrelated :
      {pv : Pv} {pvs : List Pv} {namespaces : List Str}
      → (IsRelated driver_name unique_id pv → ⊥)
      → Claims driver_name unique_id pvs namespaces
      → Claims driver_name unique_id (pv ∷ pvs) namespaces

-- The pods of the namespace that have a unique id.
abbrev pub pods_with_unique_id : Str → Query
pods_with_unique_id namespace = record {
  namespace = namespace;
  labels = [];
  fields = [];
  keys = lit "juicefs-uniqueid" ∷ [];
}

-- The app pods are the answers for the namespaces, one after the other.
pub data Answered (env : Env) : List Str → List Pod → Type 0 where
  none_left : Answered env [] []
  next :
      {namespace : Str} {namespaces : List Str} {pods rest : List Pod} (t : Trace)
      → env.list_pods_reply t (pods_with_unique_id namespace) ≡ ok pods
      → Answered env namespaces rest
      → Answered env (namespace ∷ namespaces) (pods ++ rest)

-- The pod that was answered is on the node, by its name or by its selector; some of the answered
-- volumes of its unique id are claimed; and the table has the answered mounts and the app pods of the
-- namespaces of the claims.
pub record Driven (env : Env) (name namespace : Str) (pod : Pod) (mit : MountInfoTable)
    : Type 0 where
  pub asked : (t : Trace) × (env.get_pod_reply t name namespace ≡ ok pod)
  pub here :
      (pod.node_name ≡ env.node)
      ⊎ (get_str (lit "kubernetes.io/hostname") pod.node_selector ≡ env.node)
  pub mis : List MountInfo
  pub parsed : (t : Trace) × (env.mount_table_reply t ≡ ok mis)
  pub pvs : List Pv
  pub listed : (t : Trace) × (env.list_pvs_reply t ≡ ok pvs)
  pub namespaces : List Str
  pub claims :
      Claims env.driver_name (get_str (lit "juicefs-uniqueid") (annotations_of pod)) pvs namespaces
  pub some_claim : is_empty namespaces ≡ false
  pub apps : List Pod
  pub answered : Answered env namespaces apps
  pub table : mit ≡ set_pods_status (record { mis = mis; deleted_pods = [] }) (some apps)

names_iff :
    (driver_name unique_id class : Str) (csi : CsiSource)
    → (source_relates driver_name unique_id class csi ≡ true) ↔ (
        (csi.driver ≡ driver_name)
        × (is_empty unique_id ≡ false)
        × ((csi.volume_handle ≡ unique_id) ⊎ (class ≡ unique_id)))
names_iff driver_name unique_id class csi = (
  (λ h. (
    ground (arith, str_eq_iff csi.driver driver_name),
    ground arith,
    elim (Bool-cases (str_eq csi.volume_handle unique_id)) [
      | inl e ↦ inl ((str_eq_iff csi.volume_handle unique_id).0 e)
      | inr differs ↦ inr ((str_eq_iff class unique_id).0 (ground arith))
    ],
  )),
  (λ (d, m, n). elim n [
    | inl e ↦
        ground (arith, str_eq_iff csi.driver driver_name, str_eq_iff csi.volume_handle unique_id)
    | inr e ↦ ground (arith, str_eq_iff csi.driver driver_name, str_eq_iff class unique_id)
  ]),
)

is_related-to :
    (driver_name unique_id : Str) (pv : Pv)
    → is_related driver_name unique_id pv ≡ true
    → IsRelated driver_name unique_id pv
unfolding is_related
is_related-to driver_name unique_id pv h = elim (Option-cases pv.csi) [
  | inl missing ↦ let clash : false ≡ true = rw missing at h in absurd (cc)
  | inr (csi, source) ↦
      let (driver, marked, names) =
        (names_iff driver_name unique_id pv.storage_class csi).0 (rw source at h) in
      record { csi = csi; source = source; driver = driver; marked = marked; names = names }
]

is_related-of :
    (driver_name unique_id : Str) (pv : Pv)
    → IsRelated driver_name unique_id pv
    → is_related driver_name unique_id pv ≡ true
unfolding is_related
is_related-of driver_name unique_id pv r =
    rw r.source
      ((names_iff driver_name unique_id pv.storage_class r.csi).1 (r.driver, r.marked, r.names))

of_related :
    {driver_name unique_id : Str} {pv : Pv} {pvs : List Pv} {namespaces : List Str}
    → IsRelated driver_name unique_id pv
    → (ref : Option (Str × Str)) → pv.claim_ref ≡ ref
    → Claims driver_name unique_id pvs namespaces
    → Claims driver_name unique_id
        (pv ∷ pvs)
        (elim ref [ none ↦ namespaces | some (name, namespace) ↦ namespace ∷ namespaces ])
of_related r none e rest = unclaimed r e rest
of_related r (some (name, namespace)) e rest = claimed name namespace r e rest

related-Claims :
    (driver_name unique_id : Str) (pvs : List Pv)
    → Claims driver_name unique_id pvs (pvc_namespaces (related_pvs driver_name unique_id pvs))
unfolding related_pvs pvc_namespaces
related-Claims driver_name unique_id [] = no_more
related-Claims driver_name unique_id (pv ∷ pvs) =
    let rest = related-Claims driver_name unique_id pvs in
    elim (Bool-cases (is_related driver_name unique_id pv)) [
      | inr other' ↦ rw other' (
          unrelated
            (λ r. let clash = sym other' ∙ is_related-of driver_name unique_id pv r in absurd (cc))
            rest)
      | inl related ↦
          let r = is_related-to driver_name unique_id pv related in
          rw related (of_related r pv.claim_ref refl rest)
    ]

on_this_node-lem :
    (node : Str) (pod : Pod)
    → on_this_node node pod ≡ true
    → (pod.node_name ≡ node) ⊎ (get_str (lit "kubernetes.io/hostname") pod.node_selector ≡ node)
unfolding on_this_node
on_this_node-lem node pod h = elim (Bool-cases (str_eq pod.node_name node)) [
  | inl here ↦ inl ((str_eq_iff pod.node_name node).0 here)
  | inr other' ↦ inr (
      (str_eq_iff (get_str (lit "kubernetes.io/hostname") pod.node_selector) node).0 (ground arith))
]

-- The requests of Reconcile itself keep what is said of the history.
pub record RequestsKeep (env : Env) (P : Trace → Type 0) : Type 0 where
  pub gets : (name namespace : Str) → Keeps env P (get_pod name namespace)
  pub mounts : Keeps env P parse_mount_info
  pub volumes : Keeps env P list_persistent_volumes
  pub pods : (namespace : Str) → Keeps env P (list_pod (pods_with_unique_id namespace))

module _ {env : Env} where
  list-Yields :
      (namespace : Str)
      → Yields env
          (λ pods. (t : Trace) × (env.list_pods_reply t (pods_with_unique_id namespace) ≡ ok pods))
          (list_pod (pods_with_unique_id namespace))
  unfolding list_pod
  list-Yields namespace = record { yields = λ t pods e. (t, e) }

  list_app_pods-Yields :
      (namespaces : List Str) → Yields env (Answered env namespaces) (list_app_pods namespaces)
  unfolding list_app_pods app_query
  list_app_pods-Yields [] = pure-Yields [] none_left
  list_app_pods-Yields (namespace ∷ namespaces) =
      from-Yields (list-Yields namespace) (λ pods (t, answer).
        from-Yields (list_app_pods-Yields namespaces)
          (λ rest answered. pure-Yields (pods ++ rest) (next t answer answered)))

  mounts-Yields :
      Yields env (λ mis. (t : Trace) × (env.mount_table_reply t ≡ ok mis)) parse_mount_info
  unfolding parse_mount_info
  mounts-Yields = record { yields = λ t mis e. (t, e) }

  volumes-Yields :
      Yields env (λ pvs. (t : Trace) × (env.list_pvs_reply t ≡ ok pvs)) list_persistent_volumes
  unfolding list_persistent_volumes
  volumes-Yields = record { yields = λ t pvs e. (t, e) }

module _ {env : Env} {P : Trace → Type 0} (requests : RequestsKeep env P) where
  apps-Keeps : (namespaces : List Str) → Keeps env P (list_app_pods namespaces)
  unfolding list_app_pods app_query
  apps-Keeps [] = pure-Keeps []
  apps-Keeps (namespace ∷ namespaces) =
      bind-Keeps (requests.pods namespace)
        (λ pods. bind-Keeps (apps-Keeps namespaces) (λ rest. pure-Keeps (pods ++ rest)))

  due-Keeps :
      (at : Option ℕ) (now : ℕ)
      → Keeps env P {A = Option ℕ}
          (elim at [ none ↦ fail (other "parsing time") | some due ↦ pure (some (due - now)) ])
  due-Keeps none now = fail-Keeps (other "parsing time")
  due-Keeps (some due) now = pure-Keeps (some (due - now))

  requeue-Keeps : (pod : Pod) → Keeps env P (requeue_after pod)
  unfolding requeue_after
  requeue-Keeps pod =
      if-Keeps (is_empty (get_str delete_delay_at_key (annotations_of pod)))
        (λ _. pure-Keeps (some 600))
        (λ _.
          bind-Keeps
            (ask-Keeps (λ e t. e.parse_time (get_str delete_delay_at_key (annotations_of pod))))
            (λ at. bind-Keeps (ask-Keeps (λ e t. e.now t)) (λ now. due-Keeps at now)))

-- The volumes of the pod, among those that were answered.
abbrev related_of : Env → Pod → List Pv → List Pv
related_of env pod pvs =
    related_pvs env.driver_name (get_str unique_id_key (annotations_of pod)) pvs

module _ {env : Env} {P : Trace → Type 0} (requests : RequestsKeep env P) (fuel : ℕ)
    {name namespace : Str}
    (runs : (pod : Pod) (mit : MountInfoTable)
      → Driven env name namespace pod mit
      → Keeps env P (run fuel mit pod))
    (pod : Pod) (asked : (t : Trace) × (env.get_pod_reply t name namespace ≡ ok pod)) where
  drive-Keeps :
      (mis : List MountInfo)
      → (t : Trace) × (env.mount_table_reply t ≡ ok mis)
      → (pvs : List Pv) → (t : Trace) × (env.list_pvs_reply t ≡ ok pvs)
      → on_this_node env.node pod ≡ true
      → is_empty (pvc_namespaces (related_of env pod pvs)) ≡ false
      → Keeps env P (drive fuel pod mis (pvc_namespaces (related_of env pod pvs)))
  unfolding drive
  drive-Keeps mis parsed pvs listed here some_claim =
      bind_yield-Keeps (apps-Keeps requests _) (list_app_pods-Yields _) (λ apps answered.
        bind-Keeps
          (runs pod (set_pods_status (record { mis = mis; deleted_pods = [] }) (some apps))
            (record {
              asked = asked;
              here = on_this_node-lem env.node pod here;
              mis = mis;
              parsed = parsed;
              pvs = pvs;
              listed = listed;
              apps = apps;
              namespaces = pvc_namespaces (related_of env pod pvs);
              claims = related-Claims _ _ pvs;
              some_claim = some_claim;
              answered = answered;
              table = refl;
            }))
          (λ _. requeue-Keeps requests pod))

  on_node-Keeps : on_this_node env.node pod ≡ true → Keeps env P (reconcile_on_node fuel pod)
  unfolding reconcile_on_node with_related
  on_node-Keeps here = bind_yield-Keeps requests.mounts mounts-Yields (λ mis parsed.
      bind_yield-Keeps requests.volumes volumes-Yields (λ pvs listed. record {
        kept =
            (if-Keeps (is_empty (related_of env pod pvs))
              (λ _. fail-Keeps (other "can not get pv by uniqueId"))
              (λ _.
                unless-Keeps (is_empty (pvc_namespaces (related_of env pod pvs))) none
                  (drive-Keeps mis parsed pvs listed here))).kept;
      }))

  found-Keeps : Keeps env P (reconcile_found fuel pod)
  unfolding reconcile_found
  found-Keeps = record { kept = (here-Keeps (on_this_node env.node pod) refl).kept }
    where
      here-Keeps :
          (b : Bool)
          → on_this_node env.node pod ≡ b
          → Keeps env P (if not b then pure none else reconcile_on_node fuel pod)
      here-Keeps true here = on_node-Keeps here
      here-Keeps false _ = pure-Keeps none

-- What is kept by the requests of Reconcile, and by each run of the pod driver on the pod that was
-- answered, which is on this node, with the table of the app pods in the namespaces of the claims of
-- the driver's volumes of its unique id, of which there are some, is kept by Reconcile: it does
-- nothing else.
pub reconcile_mount_pod-Keeps :
    (env : Env) (P : Trace → Type 0) (fuel : ℕ) (name namespace : Str)
    → RequestsKeep env P
    → ((pod : Pod) (mit : MountInfoTable)
        → Driven env name namespace pod mit
        → Keeps env P (run fuel mit pod))
    → Keeps env P (reconcile_mount_pod fuel name namespace)
unfolding reconcile_mount_pod get_pod
reconcile_mount_pod-Keeps env P fuel name namespace requests runs =
    bind_yield-Keeps (attempt-Keeps (requests.gets name namespace))
      (attempt-Yields (get_pod name namespace)) answered-Keeps
  where
    answered-Keeps :
        (r : Result Pod)
        → ((pod : Pod) → r ≡ ok pod → (t : Trace) × (env.get_pod_reply t name namespace ≡ ok pod))
        → Keeps env P (elim r [
          | ok pod ↦ reconcile_found fuel pod
          | err e ↦ if is_not_found e then pure none else fail e
          | diverged ↦ lift diverged
        ])
    answered-Keeps (ok pod) asked = found-Keeps requests fuel runs pod (asked pod refl)
    answered-Keeps (err e) asked =
        if-Keeps (is_not_found e) (λ _. pure-Keeps none) (λ _. fail-Keeps e)
    answered-Keeps diverged asked = record { kept = λ t p. p }
