-- ===== src/App/Text.antt =====
-- How far `FormatText` of internal/app/app.go comes where the writer fails.
use mathlib.Core.List.{append_assoc, append-nil}
use workloadguard.Base.{
  ℤ, String, List, [], ◌∷◌, ◌++◌, Option, none, some, ◌≡◌, ◌≢◌, refl, sym, subst, ◌∙◌, arith,
}
use workloadguard.Float.{Floats}
use workloadguard.App.{CheckResult, Writer, unless_failed, write_texts, result_texts, format_text}

-- With `done` written and `rest` to write, the writer has stopped with the error `e`, or there is
-- nothing left and no error.
abbrev pub HasStopped : Writer → List String → List String → Option String → Type 0
HasStopped w done [] e = e ≡ none
HasStopped w done (text ∷ rest) e = (e ≡ w done text) × (e ≢ none)

-- After `done`, each of the texts was written without an error.
abbrev pub Took : Writer → List String → List String → Type 0
Took w done [] = Unit
Took w done (text ∷ texts) = (w done text ≡ none) × Took w (done ++ text ∷ []) texts

-- The texts written, an error, and what was to be written: each write that is counted succeeded.
abbrev pub IsWritten : Writer → List String → List String × Option String → Type 0
IsWritten w texts (done, e) =
    (rest : List String) × (done ++ rest ≡ texts) × Took w [] done × HasStopped w done rest e

Took-snoc :
    (w : Writer) (done texts : List String) (text : String)
    → Took w done texts
    → w (done ++ texts) text ≡ none
    → Took w done (texts ++ text ∷ [])
Took-snoc w done [] text h k = (subst (λ u. w u text ≡ none) (append-nil done) k, tt)
Took-snoc w done (x ∷ xs) text (h, hs) k = (
  h,
  Took-snoc w (done ++ x ∷ []) xs text hs
      (subst (λ u. w u text ≡ none) (sym (append_assoc done (x ∷ []) xs)) k),
)

unless_failed-IsWritten :
    (w : Writer) (done : List String) (text : String) (texts : List String) (o : Option String)
    (after : List String × Option String)
    → o ≡ w done text
    → Took w [] done
    → (o ≡ none → IsWritten w ((done ++ text ∷ []) ++ texts) after)
    → IsWritten w (done ++ text ∷ texts) (unless_failed done o after)
unless_failed-IsWritten w done text texts (some e) after p took later =
    (text ∷ texts, refl, took, (p, λ none. ground arith))
unless_failed-IsWritten w done text texts none after p took later =
    let (rest, q, h, stop) = later refl in (rest, q ∙ append_assoc done (text ∷ []) texts, h, stop)

write_texts-IsWritten :
    (w : Writer) (done texts : List String)
    → Took w [] done
    → IsWritten w (done ++ texts) (write_texts w done texts)
unfolding write_texts
write_texts-IsWritten w done [] took = ([], refl, took, refl)
write_texts-IsWritten w done (text ∷ texts) took =
    unless_failed-IsWritten w done text texts (w done text) _ refl took
      λ fine. write_texts-IsWritten w (done ++ text ∷ []) texts (Took-snoc w [] done text took fine)

-- `FormatText` writes the texts of the result in order, as far as the writer takes them: without an
-- error all of them, else those before the first that fails, whose error it returns. No write before
-- that one fails.
pub format_text-IsWritten :
    (fl : Floats) (rfc3339 : ℤ → String) (w : Writer) (r : CheckResult)
    → IsWritten w (result_texts fl rfc3339 r) (format_text fl rfc3339 w r)
unfolding format_text
format_text-IsWritten fl rfc3339 w r = write_texts-IsWritten w [] (result_texts fl rfc3339 r) tt
