-- ===== src/Options/Printed.antt =====
-- A flag value that was printed is read back.
use Prim.Native.Char.{Char, code}
use Prim.Native.String.{◌++◌}
use text.Mathlib.TextLemmas.{nil-append as text_nil, cons-append as text_cons}
use wavefront_collector_for.Prelude.{
  String, Option, none, some, false, ◌==◌, eqb, eq_iff, ◌≡◌, refl, sym, ap, ◌∙◌, Bool-cases, inl,
  inr,
}
use wavefront_collector_for.Prelude.Text.{split_once, onto_both}
use wavefront_collector_for.Prelude.Result.{ok}
use wavefront_collector_for.Options.{UrlLibrary, Uri, print_uri, set_uri, set_split}

onto_none : (c : Char) (o : Option (String × String)) → onto_both c o ≡ none → o ≡ none
onto_none c none h = refl
onto_none c (some (s, t)) h = cc

colon-then : (rest : String) → ":" ++ rest ≡ String.◌∷◌ ":" rest
colon-then rest = text_cons ":" "" rest ∙ ap (λ t. String.◌∷◌ ":" t) (text_nil rest)

split_once-append :
    (key rest : String)
    → split_once b':' key ≡ none
    → split_once b':' (key ++ (":" ++ rest)) ≡ some (key, rest)
unfolding split_once
split_once-append String.[] rest h = rw (text_nil (":" ++ rest), colon-then rest) refl
split_once-append (String.◌∷◌ c key) rest h = elim (Bool-cases (eqb (code c) b':')) [
  | inl t ↦ (let clash : ◌≡◌ {A = Option (String × String)} (some ("", key)) none = rw t at h in cc)
  | inr t ↦
      let whole : onto_both c (split_once b':' key) ≡ none = rw t at h in
      let ih = split_once-append key rest (onto_none c (split_once b':' key) whole) in
      rw (text_cons c key (":" ++ rest), t) (ap (onto_both c) ih)
]

module _ {U : Type 0} (lib : UrlLibrary U) where
  -- Printing a flag value and setting a new one to the text gives the same value, if its key is not empty and
  -- has no colon, and its URL is read back as it was printed and holds no variable of the environment.
  pub set_uri-print_uri :
      (expand_env : String → String) (u : Uri U)
      → (u.key == "") ≡ false
      → split_once b':' u.key ≡ none
      → expand_env (lib.print u.val) ≡ lib.print u.val
      → lib.parse (lib.print u.val) ≡ ok u.val
      → (lib.print u.val ≡ "" → u.val ≡ lib.empty)
      → set_uri lib expand_env (print_uri lib u) ≡ ok u
  unfolding set_uri print_uri
  set_uri-print_uri expand_env u named one fixed read empty =
      elim (Bool-cases (lib.print u.val == "")) [
        | inl t ↦
            let blank = empty ((eq_iff (lib.print u.val) "").0 t) in
            rw (t, one, named) (ap (λ v. ok (record { key = u.key; val = v })) (sym blank))
        | inr t ↦
            let parts = split_once-append u.key (lib.print u.val) one in
            rw t (
              ap (set_split lib expand_env (u.key ++ (":" ++ lib.print u.val))) parts
              ∙ rw (named, t, fixed, read) refl)
      ]
