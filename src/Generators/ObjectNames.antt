-- ===== src/Generators/ObjectNames.antt =====
-- internal/util/util.go and internal/render/webhook.go: names of generated objects, and `MergeMaps`.
use Prim.Native.Char.{code}
use Prim.Native.String
use Prim.Native.String.{len, slice}
use library_olm.Prelude.{
  ℕ, ◌+◌, ◌-◌, String, Option, none, some, List, [], ◌∷◌, Map, put, ltb, nat_eq, if◌then◌else◌,
}

abbrev pub max_name_length : ℕ
max_name_length = 63

-- None is the panic on a slice with a negative bound. Lengths and bounds count bytes.
unfoldable pub object_name_for_base_and_suffix : String → String → Option String
object_name_for_base_and_suffix base suffix =
    if ltb max_name_length (len base + len suffix)
    then (if ltb max_name_length (len suffix + 1)
        then none
        else some (
            String.◌++◌ (slice base 0 (max_name_length - len suffix - 1)) (String.◌++◌ "-" suffix)))
    else some (String.◌++◌ base (String.◌++◌ "-" suffix))

-- `strings.ReplaceAll(s, ".", "-")`
unfoldable pub dashed : String → String
dashed String.[] = ""
dashed (String.◌∷◌ c s) = String.◌∷◌ (if nat_eq (code c) b'.' then "-" else c) (dashed s)

unfoldable pub webhook_service_name_for_deployment : String → Option String
unfolding object_name_for_base_and_suffix dashed
webhook_service_name_for_deployment deployment_name =
    object_name_for_base_and_suffix (dashed deployment_name) "service"

-- the inner loop of `MergeMaps`
unfoldable pub merge_into {ℓ} : {A : Type ℓ} → Map A → Map A → Map A
merge_into out [] = out
merge_into out (e ∷ m) = merge_into (put out e.0 e.1) m

unfoldable pub merge_maps {ℓ} : {A : Type ℓ} → List (Map A) → Map A → Map A
unfolding merge_into
merge_maps [] out = out
merge_maps (m ∷ maps) out = merge_maps maps (merge_into out m)
