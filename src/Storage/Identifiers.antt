-- ===== src/Storage/Identifiers.antt =====
-- src/evalops/workspace/storage.py: the patterns `^<prefix>-[0-9a-f]{32}$` of the identifiers.
use Prim.Native.Char.{code}
use evalops_lab.Common.{
  ℕ, String, Bool, false, ◌&&◌, ◌||◌, List, [], ◌∷◌, leb, ◌==◌, nat_eq, length, all,
}

abbrev pub codes : String → List ℕ
codes String.[] = []
codes (String.◌∷◌ c s) = code c ∷ codes s

-- `[0-9a-f]`
abbrev is_hex : ℕ → Bool
is_hex c = leb b'0' c && leb c b'9' || leb b'a' c && leb c b'f'

abbrev has_hex_tail : List ℕ → List ℕ → Bool
has_hex_tail [] cs = length cs == 32 && all is_hex cs
has_hex_tail (p ∷ ps) [] = false
has_hex_tail (p ∷ ps) (c ∷ cs) = c == p && has_hex_tail ps cs

unfoldable pub is_workspace_id : String → Bool
is_workspace_id s = has_hex_tail (codes "ws-") (codes s)

unfoldable pub is_run_id : String → Bool
is_run_id s = has_hex_tail (codes "run-") (codes s)

unfoldable pub is_job_id : String → Bool
is_job_id s = has_hex_tail (codes "job-") (codes s)

unfoldable pub is_comparison_id : String → Bool
is_comparison_id s = has_hex_tail (codes "comparison-") (codes s)

unfoldable pub is_input_id : String → Bool
is_input_id s = has_hex_tail (codes "input-") (codes s)

-- `[0-9a-f]{64}`
unfoldable pub is_sha256 : String → Bool
is_sha256 s = length (codes s) == 64 && all is_hex (codes s)
