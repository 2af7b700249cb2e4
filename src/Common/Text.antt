-- ===== src/Common/Text.antt =====
-- Texts that are built with `+` or an f-string.
use Prim.Native.String.{String, slice, len, ◌++◌ as ◌<>◌}
use mathlib.Core.Path.{◌≡◌, sym, ap, ◌∙◌}
use mathlib.Core.Logic.{inl, inr}
use mathlib.Core.Bool.{false}
use native.Mathlib.Omega.{arith}
use text.Mathlib.Text.{◌==◌, starts_with}
use text.Mathlib.TextEquality.{eq_iff}
use text.Mathlib.TextPositions.{slice-append_left}
use resilience_lab.Common.Tests.{Bool-cases}

-- A text with a given beginning is no text that lacks it.
pub append-differs :
    (start rest whole : String) → starts_with whole start ≡ false → start <> rest == whole ≡ false
append-differs start rest whole h = elim (Bool-cases (start <> rest == whole)) [
  | inl same ↦
      let e : start <> rest ≡ whole = (eq_iff (start <> rest) whole).0 same in
      let begins : slice whole 0 (len start) ≡ start =
        ap (λ s. slice s 0 (len start)) (sym e) ∙ slice-append_left start rest in
      absurd (ground (arith, eq_iff (slice whole 0 (len start)) start, begins))
  | inr other ↦ other
]
