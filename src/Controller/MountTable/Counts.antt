-- ===== src/Controller/MountTable/Counts.antt =====
-- The counts of resolveTargetItem of pkg/controller/mountinfo.go.
use juicedata_juicefs_csi_dr.Prelude.{
  ℕ, ◌+◌, ◌≡◌, refl, ◌∙◌, inl, inr, Bool, ◌&&◌, Option, none, some, List, [], ◌∷◌, Str, str_eq,
  GoMap, lookup, insert, lookup-insert, count, arith, Bool-cases, if◌then◌else◌, str_eq_iff,
}
use juicedata_juicefs_csi_dr.Kube.{MountInfo}
use juicedata_juicefs_csi_dr.Controller.MountTable.{TargetItem, collect, count_entry, matches}

-- Does the entry count for the target `k`?
unfoldable pub counts_for : Str → Bool → Str → MountInfo → Bool
counts_for path is_prefix k mi = matches path is_prefix mi && str_eq mi.mount_point k

abbrev pub count_at : Option TargetItem → ℕ
count_at none = 0
count_at (some item) = item.count

count-count_entry :
    (mi : MountInfo) (o : Option TargetItem) → (count_entry mi o).count ≡ count_at o + 1
unfolding count_entry
count-count_entry mi none = refl
count-count_entry mi (some item) = refl

abbrev one_if : Bool → ℕ
one_if b = if b then 1 else 0

insert-count :
    (k : Str) (mi : MountInfo) (records : GoMap TargetItem)
    → count_at
        (lookup k (insert mi.mount_point (count_entry mi (lookup mi.mount_point records)) records))
      ≡ count_at (lookup k records) + one_if (str_eq mi.mount_point k)
insert-count k mi records = elim (Bool-cases (str_eq mi.mount_point k)) [
  | inl same ↦ rw (
    lookup-insert mi.mount_point k (count_entry mi (lookup mi.mount_point records)) records,
    same,
    count-count_entry mi (lookup mi.mount_point records),
    (str_eq_iff mi.mount_point k).0 same,
  )
  | inr differ ↦
      rw
        (
          lookup-insert mi.mount_point k (count_entry mi (lookup mi.mount_point records)) records,
          differ,
        )
        (omega arith)
]

-- One more entry of the table.
entry-count :
    (path : Str) (is_prefix : Bool) (k : Str) (mi : MountInfo) (records : GoMap TargetItem)
    → count_at (
        lookup k (
          if matches path is_prefix mi
          then insert mi.mount_point (count_entry mi (lookup mi.mount_point records)) records
          else records))
      ≡ count_at (lookup k records) + one_if (counts_for path is_prefix k mi)
unfolding counts_for
entry-count path is_prefix k mi records = elim (Bool-cases (matches path is_prefix mi)) [
  | inl hit ↦ rw hit (insert-count k mi records)
  | inr miss ↦ rw miss (omega arith)
]

-- Collecting adds to the count of a target the number of entries that match the path and are
-- mounted at the target.
pub collect-counts :
    (path : Str) (is_prefix : Bool) (k : Str) (mis : List MountInfo) (records : GoMap TargetItem)
    → count_at (lookup k (collect path is_prefix mis records))
      ≡ count_at (lookup k records) + count (counts_for path is_prefix k) mis
unfolding collect count
collect-counts path is_prefix k [] records = omega arith
collect-counts path is_prefix k (mi ∷ mis) records =
    collect-counts path is_prefix k mis _ ∙ ground (arith, entry-count path is_prefix k mi records)
