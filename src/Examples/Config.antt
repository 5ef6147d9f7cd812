-- ===== src/Examples/Config.antt =====
-- The settings of volumes and of mount pods at concrete inputs.
use juicedata_juicefs_csi_dr.Prelude.{
  ◌≡◌, refl, false, none, some, [], ◌∷◌, lit, split, trim_space, has_prefix,
}
use juicedata_juicefs_csi_dr.Config.Patches.{MountPodPatch, PatchLibrary, merge_all, no_patch}
use juicedata_juicefs_csi_dr.Config.Patches.Merged.{IsMerged, chosen, merge_all-IsMerged}
use juicedata_juicefs_csi_dr.Config.Cache.{cache_options, find_cache_dir, cache_dir_value}
use juicedata_juicefs_csi_dr.Config.Cache.Options.{cache_options-doubles}

-- A patch as text is its image; no selector matches.
abbrev pub image_library : PatchLibrary
image_library = record {
  selects = λ selector labels. false;
  marshal = λ patch. patch.image;
  unmarshal = λ text patch. record patch { image = text };
}

abbrev probing : MountPodPatch
probing = record no_patch {
  liveness_probe = some (lit "live");
  startup_probe = some (lit "started");
}

merge_all-IsMerged_example :
    IsMerged
      (merge_all image_library none no_patch (probing ∷ no_patch ∷ []))
      (chosen image_library none (probing ∷ no_patch ∷ []))
merge_all-IsMerged_example = merge_all-IsMerged image_library none (probing ∷ no_patch ∷ [])

names_nothing : cache_dir_value (lit "cache-dir=") ≡ some []
unfolding cache_dir_value split has_prefix
names_nothing = refl

first_names : find_cache_dir [] ≡ none
unfolding find_cache_dir
first_names = refl

blank : trim_space [] ≡ []
unfolding trim_space
blank = refl

cache_options-doubles_example :
    (cache_options [] (lit "cache-dir=" ∷ lit "ro" ∷ lit "verbose" ∷ [])).options
    ≡ lit "ro" ∷ lit "verbose" ∷ lit "verbose" ∷ []
cache_options-doubles_example =
    cache_options-doubles [] (lit "ro" ∷ lit "verbose" ∷ []) (lit "cache-dir=" ∷ lit "ro" ∷ [])
      (lit "cache-dir=") (lit "verbose") [] refl first_names names_nothing blank
