-- ===== src/Config/Secrets/Lines.antt =====
-- The password of a source is its first line.
use Prim.Native.Char.{code}
use Prim.Native.String.{◌++◌ as str_append}
use Prim.Native.String.append
use ferrosonic.Prelude.{◌≡◌, refl, ap, ◌∙◌, arith, Bool, true, not, ◌&&◌, String, str_eq, ◌==◌}
use ferrosonic.Config.Secrets.{first_line, trim_end_cr, extract_secret_line}

-- A text that a line can hold: no line feed in it, no carriage return at its end.
unfoldable pub is_line : String → Bool
is_line String.[] = true
is_line (String.◌∷◌ c s) =
    let rest = is_line s in not (code c == 10) && (not ((code c == 13) && str_eq s "") && rest)

first_line-append :
    (s rest : String) → is_line s ≡ true → first_line (str_append s (String.◌∷◌ "\n" rest)) ≡ s
unfolding first_line is_line
first_line-append String.[] rest h = rw (append.nil (String.◌∷◌ "\n" rest)) refl
first_line-append (String.◌∷◌ c s) rest h =
    ground (arith, append.cons c s (String.◌∷◌ "\n" rest), first_line-append s rest)

trim_end_cr-line : (s : String) → is_line s ≡ true → trim_end_cr s ≡ s
unfolding trim_end_cr is_line
trim_end_cr-line String.[] h = refl
trim_end_cr-line (String.◌∷◌ c s) h = ground (arith, trim_end_cr-line s)

pub extract_secret_line-append :
    (s rest : String)
    → is_line s ≡ true
    → extract_secret_line (str_append s (String.◌∷◌ "\n" rest)) ≡ s
unfolding extract_secret_line
extract_secret_line-append s rest h =
    ap trim_end_cr (first_line-append s rest h) ∙ trim_end_cr-line s h
