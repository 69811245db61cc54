-- ===== src/Runtime/Lifecycle/Evidence.antt =====
-- The stored text of a `LostEvidence`: `as_str` and `from_text` of lifecycle.rs.
use Prim.Native.String.{String}
use text.Mathlib.Text.{◌==◌ as str_eq}
use text.Mathlib.TextEquality.{eq_iff}
use littleorgans.Base.{◌≡◌, refl, List, [], ◌∷◌, Option, none, some, if◌then◌else◌, arith, ◌⊎◌}
use littleorgans.Runtime.Lifecycle.{
  LostEvidence, shim_died_before_report, pid_not_alive, pid_reuse_detected, unknown,
}

-- `LostEvidence::ALL`: the variants in declaration order.
abbrev pub all : List LostEvidence
all = shim_died_before_report ∷ pid_not_alive ∷ pid_reuse_detected ∷ unknown ∷ []

unfoldable pub as_str : LostEvidence → String
as_str shim_died_before_report = "shim_died_before_report"
as_str pid_not_alive = "pid_not_alive"
as_str pid_reuse_detected = "pid_reuse_detected"
as_str unknown = "unknown"

find : String → List LostEvidence → Option LostEvidence
unfolding as_str
find text [] = none
find text (e ∷ es) = if str_eq (as_str e) text then some e else find text es

abbrev unwrap_or_unknown : Option LostEvidence → LostEvidence
unwrap_or_unknown none = unknown
unwrap_or_unknown (some e) = e

unfoldable pub from_text : String → LostEvidence
unfolding find
from_text text = unwrap_or_unknown (find text all)

-- Reading a text gives an evidence that is stored as that very text, unless it gives `unknown`.
pub as_str-from_text :
    (text : String) → (as_str (from_text text) ≡ text) ⊎ (from_text text ≡ unknown)
unfolding from_text
as_str-from_text text = ground (
  arith,
  eq_iff "shim_died_before_report" text,
  eq_iff "pid_not_alive" text,
  eq_iff "pid_reuse_detected" text,
  eq_iff "unknown" text,
)

-- Every variant reads back from the text under which it is stored; and any text at all is read,
-- either as the variant that is stored as that very text or as `unknown`.
pub from_text_exact :
    (e : LostEvidence) (text : String)
    → (from_text (as_str e) ≡ e) × ((as_str (from_text text) ≡ text) ⊎ (from_text text ≡ unknown))
unfolding from_text
from_text_exact shim_died_before_report text = (refl, as_str-from_text text)
from_text_exact pid_not_alive text = (refl, as_str-from_text text)
from_text_exact pid_reuse_detected text = (refl, as_str-from_text text)
from_text_exact unknown text = (refl, as_str-from_text text)
