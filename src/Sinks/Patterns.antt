-- ===== src/Sinks/Patterns.antt =====
-- The two regular expressions of plugins/sinks/wavefront/utils.go, as searches in the text.
-- "^label.*beta|alpha*" matches a text that begins with "label" and holds "beta" later on the same
-- line, and any text that holds "alph"; "^label.*gke|azure*" likewise with "gke" and "azur".
use Prim.Native.Char.{code}
use wavefront_collector_for.Prelude.Text.{is_prefix, contains}
use wavefront_collector_for.Prelude.{String, Bool, true, false, ◌||◌, eqb, ◌≡◌, refl, if◌then◌else◌}

-- `.*p` from here on: `.` is any character but a line break
in_line : String → String → Bool
in_line p String.[] = is_prefix p String.[]
in_line p (String.◌∷◌ c s) =
    let rest = in_line p s in
    if is_prefix p (String.◌∷◌ c s) then true else if eqb (code c) 10 then false else rest

-- `^a.*p`
after : String → String → String → Bool
after String.[] p s = in_line p s
after (String.◌∷◌ c a) p String.[] = false
after (String.◌∷◌ c a) p (String.◌∷◌ d s) =
    let rest = after a p s in if eqb (code c) (code d) then rest else false

unfoldable pub alpha_beta_regex : String → Bool
unfolding is_prefix contains in_line after
alpha_beta_regex name = after "label" "beta" name || contains "alph" name

unfoldable pub iaas_name_regex : String → Bool
unfolding is_prefix contains in_line after
iaas_name_regex name = after "label" "gke" name || contains "azur" name

alpha_beta_examples :
    (alpha_beta_regex "label.beta.kubernetes.io/arch" ≡ true)
    × (alpha_beta_regex "beta.label" ≡ false)
    × (alpha_beta_regex "alphabet" ≡ true)
unfolding alpha_beta_regex
alpha_beta_examples = (refl, refl, refl)

iaas_examples :
    (iaas_name_regex "label.cloud.google.com/gke-nodepool" ≡ true) × (iaas_name_regex "env" ≡ false)
unfolding iaas_name_regex
iaas_examples = (refl, refl)
