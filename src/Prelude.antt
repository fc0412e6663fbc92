-- ===== src/Prelude.antt =====
-- What the modules share: the libraries' names passed on, Boolean tests, lists over the native
-- numbers, text, and maps.
mod Tests
mod Lists
mod Text
mod Maps
mod Fallible
pub mod Int
pub mod Float
pub mod Json
pub mod Digits
pub use Tests.*
pub use Lists.*
unfoldable pub use Text.{
  to_upper, to_lower, trim_space, has_prefix, contains, equal_fold, format_nat, without_dashes,
  without, after_prefix, trim_prefix,
}
pub use Text.{str_eq, text_or, ◌+s◌, len, prefix_of, after_prefix-append, after_prefix_sound}
unfoldable pub use Maps.{find, put, delete}
pub use Maps.{Entry, GoMap, find-put, find-put-same, find-put-other, find-delete}
pub use Fallible.{Result, ok, err, ◌>>=◌, ◌>>◌, first_step, ok_inj, Yields, Yields-ok, Yields-bind}
pub use Prim.Native.Nat.{ℕ, zero, suc, ◌+◌, ◌-◌, ◌*◌, ◌/◌, ◌%◌, ◌^◌, ◌≤◌, ◌<◌, min}
pub use Prim.Native.String.{String}
pub use mathlib.Core.Path.{◌≡◌, refl, sym, ap, ◌∙◌}
pub use mathlib.Core.Logic.{◌≢◌, ◌↔◌, ◌⊎◌, inl, inr}
pub use mathlib.Core.Bool.{Bool, true, false, not, ◌&&◌, ◌||◌}
pub use mathlib.Core.Option.{Option, none, some}
pub use mathlib.Core.List.{List, [], ◌∷◌, ◌++◌, map, append-nil, append_assoc}
pub use native.Mathlib.Omega.{arith}
pub use text.Mathlib.TextEquality.{eq_iff}
pub use text.Mathlib.TextPositions.{eq_refl}
