-- ===== src/Base.antt =====
-- The names that the other modules share: the libraries', passed on, and those of the children.
mod Tests
mod Assoc
mod Texts
pub use Tests.*
unfoldable pub use Texts.{
  is_blank, is_space, is_empty_text, trim_left, trim_right, trim_space, before, trim_prefix, split,
}
pub use Texts.{
  Lacks, split-Lacks, split-append, before-append, trim_prefix-Lacks, trim_space-append,
}
unfoldable pub use Assoc.{Keyed, lookup, erase, put, member, discard}
pub use Assoc.{
  lookup_head, lookup_tail, lookup-erase, lookup-put, member-discard, member_cons, Fresh, Distinct,
  discard-Fresh, discard-Distinct, erase-Keyed, Fresh-not_member, KeysFresh, erase-KeysFresh,
  erased-KeysFresh, KeysFresh-lookup,
}
pub use Prim.Native.Nat.{ℕ, zero, suc, ◌+◌, ◌-◌, ◌*◌, ◌/◌, ◌%◌, ◌^◌, ◌≤◌, ◌<◌, min, max}
pub use Prim.Native.String.{String}
pub use mathlib.Core.Path.{◌≡◌, refl, sym, ap, ◌∙◌, subst}
pub use mathlib.Core.Logic.{◌≢◌, ◌↔◌, ◌⊎◌, inl, inr}
pub use mathlib.Core.Bool.{Bool, true, false, not, ◌&&◌, ◌||◌}
pub use mathlib.Core.Option.{Option, none, some}
pub use mathlib.Core.List.{List, [], ◌∷◌, ◌++◌, map}
pub use native.Mathlib.Omega.{arith}
pub use text.Mathlib.Text.{◌==◌ as str_eq}
pub use text.Mathlib.TextEquality.{eq_iff as str_eq_iff}
