-- ===== src/Config/Cache/Options.antt =====
-- The mount options that ParseSetting of pkg/config/setting.go makes of the cache directories.
use juicedata_juicefs_csi_dr.Prelude.{
  ℕ, ◌≡◌, refl, ap, ◌∙◌, true, false, Option, none, some, List, [], ◌∷◌, ◌++◌, Str, lit, join,
  split, trim_space, is_empty, drop, length, length-snoc, drop-length-append, arith, take, ◌+◌, suc,
}
use juicedata_juicefs_csi_dr.Config.Cache.{
  first_of, find_cache_dir, cache_dir_value, remove_at, seen_after, set_cache_dir, cache_options,
}

-- The options around the first one that names cache directories.
pub record Names (options : List Str) (value : Str) : Type 0 where
  pub before : List Str
  pub option : Str
  pub behind : List Str
  pub whole : options ≡ before ++ option ∷ behind
  pub first : find_cache_dir before ≡ none
  pub names : cache_dir_value option ≡ some value

first_of-none :
    (w : Option Str) (later : Option (ℕ × Str))
    → first_of w later ≡ none
    → (w ≡ none) × (later ≡ none)
first_of-none (some v) later h = cc
first_of-none none none h = (refl, refl)
first_of-none none (some p) h = cc

take-names :
    (before : List Str) (option : Str) (behind : List Str) (value : Str)
    → find_cache_dir before ≡ none
    → cache_dir_value option ≡ some value
    → find_cache_dir (before ++ option ∷ behind) ≡ some (length before, value)
unfolding find_cache_dir
take-names [] option behind value first names = rw names refl
take-names (o ∷ before) option behind value first names =
    let (unnamed, later) = first_of-none (cache_dir_value o) (find_cache_dir before) first in
    rw (unnamed, take-names before option behind value later names) refl

remove_at-names :
    (before : List Str) (option : Str) (behind : List Str)
    → remove_at (length before) (before ++ option ∷ behind) ≡ before ++ behind
unfolding remove_at
remove_at-names [] option behind = refl
remove_at-names (o ∷ before) option behind = ap (◌∷◌ o) (remove_at-names before option behind)

-- What the options and the directories are if `value` is the value of the first option that names
-- cache directories.
chosen :
    (dirs options : List Str) (value : Str) (n : Names options value)
    → cache_options dirs options
      ≡ set_cache_dir
          (dirs ++ split (trim_space value) (lit ":"))
          (split (trim_space value) (lit ":"))
          (n.before ++ n.behind)
          (seen_after (length n.before) options)
unfolding cache_options
chosen dirs options value n =
    let here : find_cache_dir options ≡ some (length n.before, value) =
      ap find_cache_dir n.whole ∙ take-names n.before n.option n.behind value n.first n.names in
    let gone : remove_at (length n.before) options ≡ n.before ++ n.behind =
      ap (remove_at (length n.before)) n.whole ∙ remove_at-names n.before n.option n.behind in
    rw (here, cache_options)
      (ap
        (λ os.
          set_cache_dir (dirs ++ split (trim_space value) (lit ":"))
            (split (trim_space value) (lit ":")) os (seen_after (length n.before) options))
        gone)

set-options :
    (dirs cache_dirs options seen : List Str)
    → is_empty (join dirs (lit ":")) ≡ false
    → (set_cache_dir dirs cache_dirs options seen).options
      ≡ options ++ (lit "cache-dir=" ++ join dirs (lit ":")) ∷ []
unfolding set_cache_dir
set-options dirs cache_dirs options seen h = rw h refl

set-seen :
    (dirs cache_dirs options seen : List Str)
    → is_empty (join dirs (lit ":")) ≡ true
    → (set_cache_dir dirs cache_dirs options seen).options ≡ seen
unfolding set_cache_dir
set-seen dirs cache_dirs options seen h = rw h refl

append-not-empty : (dirs : List Str) (o : Str) (os : List Str) → is_empty (dirs ++ o ∷ os) ≡ false
append-not-empty [] o os = refl
append-not-empty (d ∷ dirs) o os = refl

-- Where the options name cache directories, the first such option gives way to a last one that
-- lists the directories of the context and its own, and all others keep their order.
pub cache_options-Names :
    (dirs options : List Str) (value : Str) (n : Names options value)
    → is_empty (join (dirs ++ split (trim_space value) (lit ":")) (lit ":")) ≡ false
    → (cache_options dirs options).options
      ≡ (n.before ++ n.behind)
        ++ (lit "cache-dir=" ++ join (dirs ++ split (trim_space value) (lit ":")) (lit ":")) ∷ []
cache_options-Names dirs options value n h =
    ap (λ c. c.options) (chosen dirs options value n) ∙ set-options _ _ _ _ h

take-before :
    (before : List Str) (option : Str) (behind : List Str)
    → take (length before) (before ++ option ∷ behind) ≡ before
take-before [] option behind = refl
take-before (o ∷ before) option behind = ap (◌∷◌ o) (take-before before option behind)

drop-before :
    (before : List Str) (option : Str) (behind : List Str)
    → drop (suc (length before)) (before ++ option ∷ behind) ≡ behind
drop-before [] option behind = refl
drop-before (o ∷ before) option behind = drop-before before option behind

length-around :
    (before : List Str) (option : Str) (behind : List Str)
    → length (before ++ option ∷ behind) ≡ suc (length before + length behind)
length-around [] option behind = ground arith
length-around (o ∷ before) option behind =
    let rest = length-around before option behind in ground arith

-- The last option stands behind all but the one that was cut out.
last-seen :
    (before behind others : List Str) (option last : Str)
    → before ++ option ∷ behind ≡ others ++ last ∷ []
    → seen_after (length before) (before ++ option ∷ behind) ≡ before ++ (behind ++ last ∷ [])
unfolding seen_after
last-seen before behind others option last whole =
    let long : length before + length behind ≡ length others =
      omega (arith, length-around before option behind, length-snoc others last, ap length whole) in
    rw (take-before before option behind, drop-before before option behind)
      (ap (λ x. before ++ (behind ++ x)) (rw (long, whole) (drop-length-append others (last ∷ []))))

-- Where the first option that names cache directories names none after all, with none in the
-- context, the options are all others in order, and then the last one of the list: this one stands
-- twice, unless it is the option itself, which then stays.
pub cache_options-doubles :
    (before behind others : List Str) (option last value : Str)
    → before ++ option ∷ behind ≡ others ++ last ∷ []
    → find_cache_dir before ≡ none
    → cache_dir_value option ≡ some value
    → trim_space value ≡ []
    → (cache_options [] (before ++ option ∷ behind)).options ≡ before ++ (behind ++ last ∷ [])
unfolding split join
cache_options-doubles before behind others option last value whole first names blank =
    ap (λ c. c.options)
      (chosen [] (before ++ option ∷ behind) value (record {
        before = before;
        option = option;
        behind = behind;
        whole = refl;
        first = first;
        names = names;
      }))
    ∙ set-seen _ _ _ _ (rw blank refl)
    ∙ last-seen before behind others option last whole
