-- ===== src/Api/Groups.antt =====
-- That the two views of the processes agree (internal/api/handlers.go).
use mathlib.Core.List.{append-nil}
use workloadguard.Base.{
  String, string_eq, List, [], ◌∷◌, ◌++◌, map, some, ◌==◌, ◌≡◌, ◌≢◌, refl, sym, ap, ◌∙◌, arith,
  Bool-cases, inl, inr, length, length-map,
}
use workloadguard.Base.Dict.{Dict, get_or, get_or-append_at}
use workloadguard.Base.Filter.{filter_by}
use workloadguard.Collector.{ProcessInfo, Snapshot, processes_by_name}
use workloadguard.Collector.Index.{IsIndexed}
use workloadguard.Api.{ProcessEntry, groups_body, group_body}
use workloadguard.Api.Handlers.{
  from_collector_processes, group_processes, group_response, handle_processes,
  handle_processes_by_name,
}

get_or-group_processes :
    (n : String) (ps : List ProcessInfo) (m : Dict String (List ProcessEntry))
    → get_or n [] (group_processes m ps)
      ≡ get_or n [] m ++ filter_by (λ p. p.name == n) (from_collector_processes ps)
unfolding group_processes from_collector_processes
get_or-group_processes n [] m = sym (append-nil _)
get_or-group_processes n (p ∷ ps) m =
    get_or-group_processes n ps _ ∙ get_or-append_at p.name n _ m _

filter_by-from_collector_processes :
    (n : String) (ps : List ProcessInfo)
    → filter_by (λ p. p.name == n) (from_collector_processes ps)
      ≡ from_collector_processes (filter_by (λ p. p.name == n) ps)
unfolding from_collector_processes
filter_by-from_collector_processes n [] = refl
filter_by-from_collector_processes n (p ∷ ps) =
    ground (arith, filter_by-from_collector_processes n ps)

length-from_collector_processes :
    (ps : List ProcessInfo) → length (from_collector_processes ps) ≡ length ps
unfolding from_collector_processes
length-from_collector_processes ps = length-map _ ps

-- The group of a name, of all processes, is what the snapshot's index gives.
group_of :
    (s : Snapshot) (name : String)
    → IsIndexed s
    → get_or name [] (group_processes [] s.processes)
      ≡ from_collector_processes (processes_by_name s name)
group_of s name indexed =
    get_or-group_processes name s.processes []
    ∙ filter_by-from_collector_processes name s.processes
    ∙ ap from_collector_processes (sym (indexed.named name))

-- Over a snapshot with a right index, what is answered for one name that is not empty is the group
-- of that name among the groups answered for all processes, with its count; for a name that no
-- process has, the empty group.
pub handle_processes-by_name :
    (s : Snapshot) (name : String)
    → IsIndexed s
    → name ≢ ""
    → (groups : Dict String (List ProcessEntry)) × (handle_processes (some s)
        ≡ (200, groups_body (map group_response groups)))
      × (handle_processes_by_name name (some s)
          ≡ (200, group_body (group_response (name, get_or name [] groups))))
unfolding handle_processes handle_processes_by_name
handle_processes-by_name s name indexed named = (
  group_processes [] s.processes,
  refl,
  elim (Bool-cases (name == "")) [
    | inl same ↦ absurd (named ((string_eq.test_iff name "").0 same))
    | inr other ↦ rw (other, group_of s name indexed, length-from_collector_processes) refl
  ],
)
