-- ===== src/Common/Texts.antt =====
-- Tests on texts.
use text.Mathlib.Text.{find?}
use Prim.Native.String.{String}
use mathlib.Core.Bool.{Bool, true, false}
use mathlib.Core.Option.{none, some}

-- strings.Contains
unfoldable pub contains : String → String → Bool
contains s part = elim (find? s part) [ none ↦ false | some i ↦ true ]
