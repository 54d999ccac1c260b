-- ===== src/Prelude/Prefixes.antt =====
-- A prefix that is taken off a byte string.
use mathlib.Core.Path.{◌≡◌, refl}
use mathlib.Core.Option.{some}
use mathlib.Core.List.{[], ◌∷◌, ◌++◌}
use native.Mathlib.Omega.{arith}
use ka_chat_indexer.Prelude.Lists.{Bytes}
use ka_chat_indexer.Prelude.Text.{strip_prefix}

pub strip_prefix-append : (p s rest : Bytes) → strip_prefix p s ≡ some rest → s ≡ p ++ rest
unfolding strip_prefix
strip_prefix-append [] s rest h = ground arith
strip_prefix-append (c ∷ p) [] rest h = cc
strip_prefix-append (c ∷ p) (d ∷ s) rest h = ground (arith, strip_prefix-append p s rest)

pub strip_prefix_append : (p rest : Bytes) → strip_prefix p (p ++ rest) ≡ some rest
unfolding strip_prefix
strip_prefix_append [] rest = refl
strip_prefix_append (c ∷ p) rest = ground (arith, strip_prefix_append p rest)
