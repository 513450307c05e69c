-- ===== src/Diagnostics/Chain.antt =====
-- The chain of parents (internal/diagnostics/diagnostics.go, `buildParentChain`).
use workloadguard.Base.{
  ℕ, zero, suc, ◌≤◌, ◌<◌, ℤ, pos, int_eq, true, false, ◌||◌, List, [], ◌∷◌, none, some, ◌==◌, ◌≡◌,
  refl, if◌then◌else◌, length, elem, arith, beq_ℤ_iff, beq_refl, ◌⊎◌, Bool-cases, Option-cases, inl,
  inr,
}
use workloadguard.Base.Dict.{Dict, lookup}
use workloadguard.Collector.{ProcessInfo, Snapshot, process_by_pid}
use workloadguard.Diagnostics.{chain_loop, build_parent_chain}

-- How many entries of the index are under a PID that has not been seen.
abbrev unseen : Dict ℤ ProcessInfo → List ℤ → ℕ
unseen [] seen = 0
unseen ((k, p) ∷ m) seen = if elem k seen then unseen m seen else suc (unseen m seen)

unseen-le-length : (m : Dict ℤ ProcessInfo) (seen : List ℤ) → unseen m seen ≤ length m
unseen-le-length [] seen = omega arith
unseen-le-length ((k, p) ∷ m) seen = ground (arith, unseen-le-length m seen)

unseen-cons_le :
    (m : Dict ℤ ProcessInfo) (k : ℤ) (seen : List ℤ) → unseen m (k ∷ seen) ≤ unseen m seen
unseen-cons_le [] k seen = omega arith
unseen-cons_le ((j, p) ∷ m) k seen = ground (arith, unseen-cons_le m k seen)

unseen-cons_lt :
    (m : Dict ℤ ProcessInfo) (k : ℤ) (seen : List ℤ) {p : ProcessInfo}
    → lookup k m ≡ some p
    → elem k seen ≡ false
    → unseen m (k ∷ seen) < unseen m seen
unseen-cons_lt [] k seen found new = absurd (ground arith)
unseen-cons_lt ((j, p) ∷ m) k seen {p = q} found new = elim (Bool-cases (j == k)) [
  | inl same ↦
      let eq : j ≡ k = (beq_ℤ_iff j k).0 same in
      rw (eq, beq_refl k, new) (omega (arith, unseen-cons_le m k seen))
  | inr other ↦
      let later : lookup k m ≡ some q = ground arith in
      ground (arith, unseen-cons_lt m k seen later new)
]

unseen-process_by_pid :
    (s : Snapshot) (k : ℤ) (seen : List ℤ) {p : ProcessInfo}
    → process_by_pid s k ≡ some p
    → elem k seen ≡ false
    → unseen s.by_pid (k ∷ seen) < unseen s.by_pid seen
unfolding process_by_pid
unseen-process_by_pid s k seen found new = unseen-cons_lt s.by_pid k seen found new

module _ (s : Snapshot) (start : ℤ) where
  -- Processes from an ancestor down to that of the PID `start`, each the parent of the next.
  pub data IsChain : List ProcessInfo → Type 0 where
    bottom : (p : ProcessInfo) → process_by_pid s start ≡ some p → IsChain (p ∷ [])
    above :
        (p q : ProcessInfo) (rest : List ProcessInfo)
        → process_by_pid s q.ppid ≡ some p
        → IsChain (q ∷ rest)
        → IsChain (p ∷ q ∷ rest)

  -- The PIDs under which the processes of a chain were looked up.
  abbrev pub looked_up : List ProcessInfo → List ℤ
  looked_up [] = []
  looked_up (p ∷ []) = start ∷ []
  looked_up (p ∷ q ∷ rest) = q.ppid ∷ looked_up (q ∷ rest)

  -- Nothing can be put above the top: it has no parent, is its own, its parent is not in the
  -- index, or its parent was looked up before.
  abbrev pub IsTop : ProcessInfo → List ProcessInfo → Type 0
  IsTop p rest =
      (p.ppid ≡ pos 0)
      ⊎ ((p.ppid ≡ p.pid)
          ⊎ ((process_by_pid s p.ppid ≡ none) ⊎ (elem p.ppid (looked_up (p ∷ rest)) ≡ true)))

  -- Empty if the PID is not in the index, and else a chain with nothing above its top.
  abbrev pub IsFullChain : List ProcessInfo → Type 0
  IsFullChain [] = process_by_pid s start ≡ none
  IsFullChain (p ∷ rest) = IsChain (p ∷ rest) × IsTop p rest

  -- The state of the loop: what is looked up next, and what has been.
  abbrev Ready : ℤ → List ProcessInfo → Type 0
  Ready current [] = current ≡ start
  Ready current (q ∷ rest) = (q.ppid ≡ current) × IsChain (q ∷ rest)

  IsChain-onto :
      (current : ℤ) (chain : List ProcessInfo) (p : ProcessInfo)
      → Ready current chain
      → process_by_pid s current ≡ some p
      → IsChain (p ∷ chain) × (looked_up (p ∷ chain) ≡ current ∷ looked_up chain)
  IsChain-onto current [] p same found = (bottom p (rw same at found), rw same refl)
  IsChain-onto current (q ∷ rest) p (same, chained) found =
      (above p q rest (rw (← same) at found) chained, rw same refl)

  seen_full :
      (current : ℤ) (chain : List ProcessInfo)
      → Ready current chain
      → elem current (looked_up chain) ≡ true
      → IsFullChain chain
  seen_full current [] same old = absurd (ground arith)
  seen_full current (q ∷ rest) (same, chained) old = (chained, inr (inr (inr (rw same old))))

  absent_full :
      (current : ℤ) (chain : List ProcessInfo)
      → Ready current chain
      → process_by_pid s current ≡ none
      → IsFullChain chain
  absent_full current [] same absent = rw same at absent
  absent_full current (q ∷ rest) (same, chained) absent =
      (chained, inr (inr (inl (rw same absent))))

  root_full :
      (chain : List ProcessInfo) (p : ProcessInfo)
      → IsChain (p ∷ chain)
      → (p.ppid == pos 0 || p.ppid == p.pid) ≡ true
      → IsFullChain (p ∷ chain)
  root_full chain p chained root = elim (Bool-cases (p.ppid == pos 0)) [
    | inl zero_parent ↦ (chained, inl ((beq_ℤ_iff p.ppid (pos 0)).0 zero_parent))
    | inr other ↦ (chained, inr (inl ((beq_ℤ_iff p.ppid p.pid).0 (ground arith))))
  ]

  -- With more fuel than unseen entries the loop ends by itself, with a full chain.
  chain_loop_total :
      (fuel : ℕ) (current : ℤ) (chain : List ProcessInfo)
      → suc (unseen s.by_pid (looked_up chain)) < fuel
      → Ready current chain
      → (r : List ProcessInfo) × (chain_loop fuel s current (looked_up chain) chain ≡ some r)
        × IsFullChain r
  unfolding chain_loop
  chain_loop_total zero current chain h ready = elim h [ ]
  chain_loop_total (suc fuel) current chain h ready =
      elim (Bool-cases (elem current (looked_up chain))) [
        | inl old ↦ (chain, ground arith, seen_full current chain ready old)
        | inr new ↦ elim (Option-cases (process_by_pid s current)) [
          | inl absent ↦ (chain, ground arith, absent_full current chain ready absent)
          | inr (proc, found) ↦
              let (chained, longer) = IsChain-onto current chain proc ready found in
              elim (Bool-cases (proc.ppid == pos 0 || proc.ppid == proc.pid)) [
                | inl root ↦ (proc ∷ chain, ground arith, root_full chain proc chained root)
                | inr child ↦
                    let less : unseen s.by_pid (looked_up (proc ∷ chain))
                        < unseen s.by_pid (looked_up chain) =
                      rw longer (unseen-process_by_pid s current (looked_up chain) found new) in
                    let (r, ends, full) =
                      chain_loop_total fuel proc.ppid (proc ∷ chain) (omega arith)
                        (refl, chained) in
                    (r, rw (new, found, child, chain_loop) (rw longer at ends), full)
              ]
        ]
      ]

-- `buildParentChain` ends, also where the parents form a cycle: the fuel is enough. What it returns
-- is empty exactly where the PID is unknown, and else leads from an ancestor down to the process,
-- each the indexed parent of the next, and cannot be led further up.
pub build_parent_chain_total :
    (pid : ℤ) (s : Snapshot)
    → (chain : List ProcessInfo) × (build_parent_chain pid s ≡ some chain) × IsFullChain s pid chain
unfolding build_parent_chain
build_parent_chain_total pid s =
    chain_loop_total s pid (suc (suc (length s.by_pid))) pid []
      (omega (arith, unseen-le-length s.by_pid [])) refl
