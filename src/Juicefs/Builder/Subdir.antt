-- ===== src/Juicefs/Builder/Subdir.antt =====
-- overwriteSubdirWithSubPath of pkg/juicefs/mount/builder/common.go.
use juicedata_juicefs_csi_dr.Prelude.{
  ◌≡◌, refl, ap, ◌∙◌, false, not, List, [], ◌∷◌, ◌++◌, Str, lit, is_empty, has_prefix, keep, any,
  Bool-cases, inl, inr, arith,
}
use juicedata_juicefs_csi_dr.Juicefs.Settings.{JfsSetting}
use juicedata_juicefs_csi_dr.Juicefs.Builder.{
  is_subdir, scan_subdir, overwrite_subdir_with_sub_path,
}

-- The one option that names a directory is the last, and all others are kept in order. The directory
-- is the sub-path where no option named one before.
pub record Overwritten (sub_path : Str) (before after : List Str) : Type 0 where
  pub directory : Str
  pub unnamed : any is_subdir before ≡ false → directory ≡ sub_path
  pub others : List Str
  pub kept : others ≡ keep (λ o. not (is_subdir o)) before
  pub whole : after ≡ others ++ (lit "subdir=" ++ directory) ∷ []
  pub only : keep is_subdir after ≡ (lit "subdir=" ++ directory) ∷ []

scan-keep :
    (sub_path : Str) (options : List Str) (subdir : Str)
    → (scan_subdir sub_path subdir options).0 ≡ keep (λ o. not (is_subdir o)) options
unfolding scan_subdir keep
scan-keep sub_path [] subdir = refl
scan-keep sub_path (option ∷ options) subdir = elim (Bool-cases (is_subdir option)) [
  | inl names ↦ rw names (scan-keep sub_path options _)
  | inr unnamed ↦ rw unnamed (ap (◌∷◌ option) (scan-keep sub_path options subdir))
]

-- Without an option that names a directory, it is the one at the start.
scan-start :
    (sub_path : Str) (options : List Str) (subdir : Str)
    → any is_subdir options ≡ false
    → (scan_subdir sub_path subdir options).1 ≡ subdir
unfolding scan_subdir any
scan-start sub_path [] subdir h = refl
scan-start sub_path (option ∷ options) subdir h = elim (Bool-cases (is_subdir option)) [
  | inl names ↦ absurd (ground arith)
  | inr unnamed ↦ rw unnamed (scan-start sub_path options subdir (rw unnamed at h))
]

keep-others :
    (options : List Str) (directory : Str)
    → keep is_subdir (keep (λ o. not (is_subdir o)) options ++ (lit "subdir=" ++ directory) ∷ [])
      ≡ (lit "subdir=" ++ directory) ∷ []
unfolding keep has_prefix
keep-others [] directory = refl
keep-others (option ∷ options) directory = elim (Bool-cases (is_subdir option)) [
  | inl names ↦ rw names (keep-others options directory)
  | inr unnamed ↦ rw (unnamed, unnamed) (keep-others options directory)
]

-- With a sub-path, the mount options end with the one option that names a directory, which is the
-- sub-path if no option named one before, and all other options are kept in order.
pub overwrite_subdir_with_sub_path-Overwritten :
    (setting : JfsSetting)
    → is_empty setting.sub_path ≡ false
    → Overwritten setting.sub_path setting.options (overwrite_subdir_with_sub_path setting).options
unfolding overwrite_subdir_with_sub_path
overwrite_subdir_with_sub_path-Overwritten setting h =
    let scanned = scan_subdir setting.sub_path setting.sub_path setting.options in
    let others = scan-keep setting.sub_path setting.options setting.sub_path in
    record {
      directory = scanned.1;
      unnamed = scan-start setting.sub_path setting.options setting.sub_path;
      others = scanned.0;
      kept = others;
      whole = rw h refl;
      only = rw h (
          ap (λ os. keep is_subdir (os ++ (lit "subdir=" ++ scanned.1) ∷ [])) others
          ∙ keep-others setting.options scanned.1);
    }
