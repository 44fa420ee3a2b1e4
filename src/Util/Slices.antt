-- ===== src/Util/Slices.antt =====
-- pebble-core/util/concat.go and strings.go.
use pebble_voting_app.Base.{
  Bool, true, false, ◌&&◌, List, [], ◌∷◌, ◌++◌, Bytes, length, drop, ◌==◌, if◌then◌else◌, ◌≡◌, refl,
}

-- The loop that appends the slices; the one before it only sizes the buffer.
concat_loop : Bytes → List Bytes → Bytes
concat_loop res [] = res
concat_loop res (p ∷ ps) = concat_loop (res ++ p) ps

unfoldable pub concat : List Bytes → Bytes
unfolding concat_loop
concat ps = concat_loop [] ps

pub concat-two : (a b : Bytes) → concat (a ∷ b ∷ []) ≡ a ++ b
unfolding concat_loop concat
concat-two a b = refl

-- strings.HasPrefix
abbrev pub has_prefix : Bytes → Bytes → Bool
has_prefix s [] = true
has_prefix [] (c ∷ cs) = false
has_prefix (b ∷ s) (c ∷ cs) = (b == c) && has_prefix s cs

unfoldable pub get_suffix : Bytes → Bytes → Bytes × Bool
get_suffix s prefix = if has_prefix s prefix then (drop (length prefix) s, true) else ([], false)
