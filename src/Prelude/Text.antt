-- ===== src/Prelude/Text.antt =====
-- Tests on native texts.
use Prim.Native.String.{String}
use mathlib.Core.Bool.{Bool}
use text.Mathlib.Text.{◌==◌, starts_with}

abbrev pub str_eq : String → String → Bool
str_eq s t = s == t

-- `lo.IsEmpty` of a text.
abbrev pub is_blank : String → Bool
is_blank s = s == ""

abbrev pub has_prefix : String → String → Bool
has_prefix s p = starts_with s p
