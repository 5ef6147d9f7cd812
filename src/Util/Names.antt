-- ===== src/Util/Names.antt =====
-- The text functions of pkg/util/util.go: reference keys, mount commands, options, addresses.
use juicedata_juicefs_csi_dr.Prelude.{
  ℕ, ◌+◌, Bool, true, false, not, ◌&&◌, ◌||◌, none, some, List, [], ◌∷◌, ◌++◌, Str, lit, GoMap,
  lookup, str_eq, has_prefix, index, contains, split, length, take, drop, get_elem?, ltb,
  if◌then◌else◌, ◌==◌, ◌^◌, ◌/◌, ◌%◌,
}
use Prim.Native.Nat.{bit_and, bit_or}
use juicedata_juicefs_csi_dr.Kube.{Result, ok, err, other, pod_mount_base}

-- The sum of the target's bytes is a parameter; `[:63]` cuts the key to the length of a label.
unfoldable pub get_reference_key : (Str → Str) → Str → Str
get_reference_key sha256_hex target = take 63 (lit "juicefs-" ++ sha256_hex target)

abbrev newline : ℕ
newline = 10

-- unicode.IsSpace, on ASCII
abbrev is_space : ℕ → Bool
is_space c = c == 32 || (c == 9 || (c == 10 || (c == 11 || (c == 12 || c == 13))))

unfoldable pub push_field : Str → List Str → List Str
push_field [] ws = ws
push_field (c ∷ w) ws = (c ∷ w) ∷ ws

-- `(word, words)`: the word that the text begins with, which may be empty, and those after it.
unfoldable pub fields_from : Str → Str × List Str
unfolding push_field
fields_from [] = ([], [])
fields_from (c ∷ s) =
    let (w, ws) = fields_from s in if is_space c then ([], push_field w ws) else (c ∷ w, ws)

-- strings.Fields(s)
unfoldable pub fields : Str → List Str
unfolding fields_from push_field
fields s = let (w, ws) = fields_from s in push_field w ws

abbrev last_or {ℓ} : {A : Type ℓ} → A → List A → A
last_or d [] = d
last_or d (x ∷ xs) = last_or x xs

unfoldable pub mount_path_of_args : List Str → Result (Str × Str)
mount_path_of_args (a ∷ b ∷ path ∷ rest) =
    if not (has_prefix path pod_mount_base)
    then err (other "err cmd")
    else elim (get_elem? (split path (lit "/")) 2) [
      | none ↦ err (other "err mntPath")
      | some volume_id ↦ ok (path, volume_id)
    ]
mount_path_of_args _ = err (other "err cmd")

-- ParseMntPath: the third word of the last line, and the part of it behind the second slash.
unfoldable pub parse_mnt_path : Str → Result (Str × Str)
unfolding mount_path_of_args
parse_mnt_path cmd = mount_path_of_args (fields (last_or [] (split cmd (newline ∷ []))))

-- strings.ReplaceAll(cmd, string(c), `\` + string(c))
unfoldable pub escape_byte : ℕ → Str → Str
escape_byte c [] = []
escape_byte c (a ∷ s) = if a == c then 92 ∷ a ∷ escape_byte c s else a ∷ escape_byte c s

unfoldable pub quote_for_shell : Str → Str
unfolding escape_byte
quote_for_shell cmd =
    let opened = if contains cmd (lit "(") then escape_byte b'(' cmd else cmd in
    if contains opened (lit ")") then escape_byte b')' opened else opened

unfoldable pub strip_readonly_option : List Str → List Str
strip_readonly_option [] = []
strip_readonly_option (option ∷ options) =
    let news = strip_readonly_option options in
    if not (str_eq option (lit "ro")) && not (str_eq option (lit "read-only"))
    then option ∷ news
    else news

-- `uri[:n] + ":****" + uri[p:]`
abbrev masked : Str → ℕ → ℕ → Str
masked uri n p = take n uri ++ (lit ":****" ++ drop p uri)

-- The offset `sp + 3` behind "://"; `sp` is -1 where there is none.
abbrev behind_scheme : Str → ℕ
behind_scheme uri = elim (index uri (lit "://")) [ none ↦ 2 | some sp ↦ sp + 3 ]

-- `diverged` is the panic of a slice out of range.
unfoldable pub strip_passwd : Str → Result Str
strip_passwd uri = elim (index uri (lit "@")) [
  | none ↦ ok uri
  | some p ↦
      if ltb (length uri) (behind_scheme uri)
      then Result.diverged
      else elim (index (drop (behind_scheme uri) uri) (lit ":")) [
        | none ↦ ok uri
        | some cp ↦
            if ltb p (behind_scheme uri + cp)
            then ok uri
            else ok (masked uri (behind_scheme uri + cp) p)
      ]
]

unfoldable pub check_expect_value : GoMap Str → Str → Str → Bool
check_expect_value m key target_value = elim (lookup key m) [
  | none ↦ false
  | some v ↦ str_eq v target_value
]

abbrev image_of_tag : Str → Bool × Bool
image_of_tag tag =
    if str_eq tag (lit "latest")
    then (true, false)
    else if has_prefix tag (lit "ee-")
    then (false, true)
    else if has_prefix tag (lit "ce-")
    then (true, false)
    else (true, true)

-- ImageResol: does the image hold the community client, and the enterprise client?
unfoldable pub image_resol : Str → Bool × Bool
image_resol image = elim (get_elem? (split image (lit ":")) 1) [
  | none ↦ (true, false)
  | some tag ↦ image_of_tag tag
]

-- DevMinor of a Linux device number.
unfoldable pub dev_minor : ℕ → ℕ
dev_minor dev = bit_or (bit_and dev 0xff) (bit_and (dev / 2 ^ 12) 0xffffff00) % 2 ^ 32
