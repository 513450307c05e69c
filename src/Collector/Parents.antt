-- ===== src/Collector/Parents.antt =====
-- Selection by name and by parent (internal/collector/collector.go).
use workloadguard.Base.{
  String, string_eq, List, [], ◌∷◌, ◌≡◌, refl, ◌==◌, Bool, true, false, not, ◌||◌, ◌&&◌, elem,
  arith, sym, ap, ◌∙◌,
}
use workloadguard.Base.Filter.{filter_by, filter_by-filter_by, filter_by-congr}
use workloadguard.Base.Dict.{Dict, insert, get_or, get_or-insert}
use workloadguard.Collector.{
  ProcessInfo, Snapshot, name_set, filter_by_parents, exclude_by_parents,
  processes_by_name_and_parent, processes_by_parent, processes_by_name,
}
use workloadguard.Collector.Index.{IsIndexed}

-- The set that the loops build holds exactly the listed names.
pub name_set-elem :
    (n : String) (m : Dict String Bool) (ns : List String)
    → get_or n false (name_set m ns) ≡ (elem n ns || get_or n false m)
name_set-elem n m [] = refl
name_set-elem n m (k ∷ ns) =
    ground (arith, name_set-elem n (insert k true m) ns, get_or-insert k n false true m)

-- `FilterByParents` keeps exactly the processes whose parent is listed, `ExcludeByParents` exactly
-- the others, both in order.
pub parents_partition :
    (ps : List ProcessInfo) (names : List String)
    → (filter_by_parents ps names ≡ filter_by (λ p. elem p.parent_name names) ps)
      × (exclude_by_parents ps names ≡ filter_by (λ p. not (elem p.parent_name names)) ps)
unfolding filter_by_parents exclude_by_parents
parents_partition ps names = (
  filter_by-congr _ (λ p. elem p.parent_name names) ps
      λ p. ground (arith, name_set-elem p.parent_name [] names),
  filter_by-congr _ (λ p. not (elem p.parent_name names)) ps
      λ p. ground (arith, name_set-elem p.parent_name [] names),
)

-- In a snapshot whose indices are right, the lookup by name and parent is the selection from the
-- whole process list by both tests, and the lookup by parent agrees with it on every name.
pub by_name_and_parent_lem :
    (s : Snapshot) (name parent : String)
    → IsIndexed s
    → (processes_by_name_and_parent s name parent
        ≡ filter_by (λ p. p.name == name && p.parent_name == parent) s.processes)
      × (processes_by_name_and_parent s name parent
          ≡ filter_by (λ p. p.name == name) (processes_by_parent s parent))
unfolding processes_by_name_and_parent processes_by_parent processes_by_name
by_name_and_parent_lem s name parent h = (
  both,
  both
      ∙ filter_by-congr _ (λ p. p.parent_name == parent && p.name == name) s.processes
          (λ p. ground arith)
      ∙ sym (filter_by-filter_by (λ p. p.name == name) (λ p. p.parent_name == parent) s.processes),
)
  where
    both :
        filter_by (λ p. p.parent_name == parent) (get_or name [] s.by_name)
        ≡ filter_by (λ p. p.name == name && p.parent_name == parent) s.processes
    both =
        ap (filter_by (λ p. p.parent_name == parent)) (h.named name)
        ∙ filter_by-filter_by _ _ s.processes
