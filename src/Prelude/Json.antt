-- ===== src/Prelude/Json.antt =====
-- JSON documents as `encoding/json` sees them: what a payload is marshalled from and what the data
-- of an envelope is unmarshalled into. An object is a list of members; the first member of a name
-- counts.
use Prim.Native.Nat.{ℕ}
use Prim.Native.String.{String}
use mathlib.Core.Bool.{Bool}
use mathlib.Core.Option.{Option, none, some}
use text.Mathlib.Text.{◌==◌ as str_eq}
use go_adpwsh.Prelude.Tests.{if◌then◌else◌}

-- `negsuc n` is -(n + 1).
pub data ℤ : Type 0 where
  pos : ℕ → ℤ
  negsuc : ℕ → ℤ

mutual
  pub data Value : Type 0 where
    null : Value
    bool : Bool → Value
    num : ℤ → Value
    str : String → Value
    arr : Items → Value
    obj : Members → Value

  pub data Items : Type 0 where
    nil : Items
    cons : Value → Items → Items

  pub data Members : Type 0 where
    end : Members
    member : String → Value → Members → Members

unfoldable pub lookup_member : String → Members → Option Value
lookup_member k end = none
lookup_member k (member j v m) = if str_eq j k then some v else lookup_member k m
