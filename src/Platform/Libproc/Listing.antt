-- ===== src/Platform/Libproc/Listing.antt =====
-- `ListPIDs` (internal/platform/libproc_darwin.go), by what the kernel promises of its calls.
use workloadguard.Base.{
  ℕ, zero, suc, ◌+◌, ◌*◌, ◌/◌, ◌≤◌, ℤ, pos, negsuc, ◌≤ℤ◌, ◌<ℤ◌, ltb_ℤ, List, [], ◌∷◌, ◌++◌, Outcome,
  ok, err, ◌≡◌, refl, ◌⊎◌, if_intro, length, length-append, All, All-append, arith, beq_ℕ,
}
use workloadguard.Platform.Libproc.{
  Libproc, Run, returned, max_pids, positive_pids, read_buffer, buffer_length, fill_buffer,
  list_sized, list_pids,
}

abbrev pub IsPositive : ℤ → Type 0
IsPositive pid = pos 0 <ℤ pid

-- The size that the kernel gives, if any, is that of one number at least; it keeps the buffer's
-- length and fills no more than the buffer.
pub record IsFilled (lib : Libproc) : Type 0 where
  pub some_number : (lib.list_size ≤ℤ pos 0) ⊎ (pos 4 ≤ℤ lib.list_size)
  pub kept : (n : ℕ) → length (lib.list_into n).1 ≡ n
  pub within : (n : ℕ) → (lib.list_into n).0 ≤ℤ pos (4 * n)

-- What is returned: an error, or at most `max_pids` PIDs, each positive.
abbrev pub IsListed : Outcome (List ℤ) → Type 0
IsListed (err e) = Unit
IsListed (ok pids) = All IsPositive pids × (length pids ≤ max_pids)

abbrev Returns : Run (List ℤ) → Type 0
Returns r = (o : Outcome (List ℤ)) × (r ≡ returned o) × IsListed o

positive_pids-Returns :
    (count : ℕ) (buffer acc : List ℤ)
    → count ≤ length buffer
    → All IsPositive acc
    → length acc + count ≤ max_pids
    → Returns (positive_pids count buffer acc)
unfolding positive_pids
positive_pids-Returns zero buffer acc h k l = (ok acc, refl, (k, omega (arith, l)))
positive_pids-Returns (suc count) [] acc h k l = absurd (omega (arith, h))
positive_pids-Returns (suc count) (pid ∷ buffer) acc h k l =
    if_intro (λ acc'. Returns (positive_pids count buffer acc')) (ltb_ℤ (pos 0) pid) _ _
      (λ kept.
        positive_pids-Returns count buffer (acc ++ pid ∷ []) (omega (arith, h))
          (All-append IsPositive acc (pid ∷ []) k (ground (arith, kept), tt))
          (omega (arith, l, length-append acc (pid ∷ []))))
      (λ dropped. positive_pids-Returns count buffer acc (omega (arith, h)) k (omega (arith, l)))

read_buffer-Returns :
    (n : ℕ) (size : ℤ) (buffer : List ℤ)
    → n ≤ max_pids
    → length buffer ≡ n
    → size ≤ℤ pos (4 * n)
    → Returns (read_buffer (size, buffer))
read_buffer-Returns n (pos zero) buffer h k l = (_, refl, tt)
read_buffer-Returns n (negsuc m) buffer h k l = (_, refl, tt)
read_buffer-Returns n (pos (suc m)) buffer h k l =
    positive_pids-Returns (suc m / 4) buffer [] (omega (arith, k, l)) tt (omega (arith, h, l))

fill_buffer-Returns :
    (list_into : ℕ → ℤ × List ℤ) (n : ℕ)
    → 1 ≤ n
    → n ≤ max_pids
    → length (list_into n).1 ≡ n
    → (list_into n).0 ≤ℤ pos (4 * n)
    → Returns (fill_buffer list_into n)
fill_buffer-Returns list_into n given few k l =
    if_intro Returns (beq_ℕ n 0) _ _ (λ empty. absurd (ground (arith, given, empty)))
      (λ filled. read_buffer-Returns n (list_into n).0 (list_into n).1 few k l)

list_sized-Returns :
    (lib : Libproc) (size : ℤ)
    → IsFilled lib
    → (size ≤ℤ pos 0) ⊎ (pos 4 ≤ℤ size)
    → Returns (list_sized lib.list_into size)
list_sized-Returns lib (pos zero) f h = (_, refl, tt)
list_sized-Returns lib (negsuc m) f h = (_, refl, tt)
list_sized-Returns lib (pos (suc m)) f h =
    fill_buffer-Returns lib.list_into (buffer_length (suc m)) (ground (arith, h)) (ground arith)
      (f.kept _) (f.within _)

-- Of a kernel that keeps to its buffer, `ListPIDs` does not panic: it returns an error, or positive
-- PIDs only, at most 32768.
pub list_pids-IsListed :
    (lib : Libproc)
    → IsFilled lib
    → (o : Outcome (List ℤ)) × (list_pids lib ≡ returned o) × IsListed o
unfolding list_pids
list_pids-IsListed lib f = list_sized-Returns lib lib.list_size f f.some_number
