-- ===== src/Util/Templates.antt =====
-- The templates of pkg/util/pvc.go in the parameters of a storage class. The expression of
-- StringParser is matched as package regexp does it: the leftmost match, `.` is no line feed, and
-- what is repeated lazily ends at the first brace.
use juicedata_juicefs_csi_dr.Prelude.{
  ℕ, zero, suc, ◌-◌, ◌==◌, Option, none, some, List, [], ◌∷◌, ◌++◌, Str, lit, str_eq, has_prefix,
  trim_prefix, length, replace_all, expand, GoMap, if◌then◌else◌,
}
use juicedata_juicefs_csi_dr.Kube.{Pvc, Node, value_at}

pub record ObjectMetadata : Type 0 where
  pub fields : GoMap Str
  pub labels : GoMap Str
  pub annotations : GoMap Str

pub record ObjectMeta : Type 0 where
  pub pvc : ObjectMetadata
  pub node : ObjectMetadata

abbrev node_metadata : Option Node → ObjectMetadata
node_metadata none = record { fields = []; labels = []; annotations = [] }
node_metadata (some node) = record {
  fields = (lit "name", node.name) ∷ (lit "podCIDR", node.pod_cidr) ∷ [];
  labels = node.labels;
  annotations = node.annotations;
}

unfoldable pub new_object_meta : Pvc → Option Node → ObjectMeta
new_object_meta pvc node = record {
  pvc = record {
    fields = (lit "name", pvc.name) ∷ (lit "namespace", pvc.namespace) ∷ [];
    labels = pvc.labels;
    annotations = pvc.annotations;
  };
  node = node_metadata node;
}

-- A match `${.kind.body}`.
pub record Template : Type 0 where
  pub kind : Str
  pub body : Str

unfoldable pub text_of : Template → Str
text_of m = lit "${." ++ (m.kind ++ (b'.' ∷ (m.body ++ lit "}")))

-- The bytes before the first brace, if it stands on this line.
unfoldable pub body_of : Str → Option Str
body_of [] = none
body_of (c ∷ s) =
    if c == b'}'
    then some []
    else if c == 10
    then none
    else elim (body_of s) [ none ↦ none | some body ↦ some (c ∷ body) ]

abbrev template : Str → Option Str → Option Template
template kind none = none
template kind (some body) = some (record { kind = kind; body = body })

unfoldable pub match_kind : List Str → Str → Option Template
unfolding has_prefix trim_prefix body_of
match_kind [] s = none
match_kind (kind ∷ kinds) s =
    if has_prefix s (kind ++ lit ".")
    then template kind (body_of (trim_prefix s (kind ++ lit ".")))
    else match_kind kinds s

unfoldable pub match_here : Str → Option Template
unfolding match_kind
match_here s =
    if has_prefix s (lit "${.")
    then match_kind (lit "PVC" ∷ lit "pvc" ∷ lit "node" ∷ []) (trim_prefix s (lit "${."))
    else none

abbrev skip_of : Option Template → ℕ
skip_of none = 0
skip_of (some m) = length (text_of m) - 1

abbrev cons_match : Option Template → List Template → List Template
cons_match none ms = ms
cons_match (some m) ms = m ∷ ms

-- pattern.FindAllStringSubmatch(s, -1), past the bytes of the match before.
unfoldable pub find_all : ℕ → Str → List Template
unfolding match_here text_of
find_all skip [] = []
find_all (suc k) (c ∷ s) = find_all k s
find_all zero (c ∷ s) = cons_match (match_here (c ∷ s)) (find_all (skip_of (match_here (c ∷ s))) s)

-- The value that a match stands for.
unfoldable pub template_value : ObjectMetadata → Str → Str
unfolding value_at has_prefix trim_prefix
template_value meta body =
    if has_prefix body (lit "labels.")
    then value_at meta.labels (trim_prefix body (lit "labels."))
    else if has_prefix body (lit "annotations.")
    then value_at meta.annotations (trim_prefix body (lit "annotations."))
    else value_at meta.fields body

unfoldable pub parse_template : ObjectMeta → Str → Template → Str
unfolding template_value text_of replace_all
parse_template meta str m =
    if str_eq m.kind (lit "node")
    then replace_all str (text_of m) (template_value meta.node m.body)
    else replace_all str (text_of m) (template_value meta.pvc m.body)

unfoldable pub parse_templates : ObjectMeta → Str → List Template → Str
unfolding parse_template
parse_templates meta str [] = str
parse_templates meta str (m ∷ ms) = parse_templates meta (parse_template meta str m) ms

unfoldable pub string_parser : ObjectMeta → Str → Str
unfolding parse_templates find_all
string_parser meta str = parse_templates meta str (find_all 0 str)

-- The value of the annotation that the name quotes.
unfoldable pub quoted_annotation : Str → GoMap Str → Str
quoted_annotation k [] = []
quoted_annotation k ((ak, av) ∷ annotations) =
    if str_eq k (lit "pvc.annotations['" ++ (ak ++ lit "']"))
    then av
    else quoted_annotation k annotations

unfoldable pub resolve_name : ObjectMeta → Str → Str → Str
unfolding value_at quoted_annotation
resolve_name meta pv_name k =
    if str_eq k (lit "pvc.name")
    then value_at meta.pvc.fields (lit "name")
    else if str_eq k (lit "pvc.namespace")
    then value_at meta.pvc.fields (lit "namespace")
    else if str_eq k (lit "pv.name")
    then pv_name
    else quoted_annotation k meta.pvc.annotations

unfoldable pub resolve_secret : ObjectMeta → Str → Str → Str
unfolding expand resolve_name
resolve_secret meta str pv_name = expand str (resolve_name meta pv_name)
