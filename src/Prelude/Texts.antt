-- ===== src/Prelude/Texts.antt =====
-- Tests on a text of which the beginning is known.
use Prim.Native.String.{String, len, slice, compare}
use Prim.Native.String.{◌++◌ as concat}
use mathlib.Core.Path.{◌≡◌, ap, sym, ◌∙◌}
use mathlib.Core.Bool.{false}
use native.Mathlib.Omega.{arith}
use text.Mathlib.TextEquality.{eq_iff}
use text.Mathlib.Text.{is_eq, starts_with, ◌==◌ as str_eq}
use text.Mathlib.TextLemmas.{append_assoc, append-eq-nil_iff}
use text.Mathlib.TextPositions.{slice-append_left}

-- A text of that length at the beginning decides.
pub starts_with-append_known :
    (known rest t : String) → len known ≡ len t → starts_with (concat known rest) t ≡ str_eq known t
starts_with-append_known known rest t e =
    ap (λ n. is_eq (compare (slice (concat known rest) 0 n) t)) (sym e)
    ∙ ap (λ s. is_eq (compare s t)) (slice-append_left known rest)

-- The same where the known text is longer.
pub starts_with-append_longer :
    (known more rest t : String)
    → len known ≡ len t
    → starts_with (concat (concat known more) rest) t ≡ str_eq known t
starts_with-append_longer known more rest t e =
    ap (λ s. starts_with s t) (append_assoc known more rest)
    ∙ starts_with-append_known known (concat more rest) t e

-- A text that begins with another than the empty one is not empty.
pub concat_filled : (s t : String) → str_eq s "" ≡ false → str_eq (concat s t) "" ≡ false
concat_filled s t e =
    ground (arith, eq_iff (concat s t) "", eq_iff s "", (append-eq-nil_iff {p = s} {q = t}).0)
