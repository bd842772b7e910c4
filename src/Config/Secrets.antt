-- ===== src/Config/Secrets.antt =====
-- config/mod.rs: where the password comes from.
pub mod Lines
pub mod Independence
use Prim.Native.Char.{Char, code}
use Prim.Native.String.{◌++◌ as str_append}
use ferrosonic.Prelude.{
  ℕ, zero, suc, Bool, true, false, not, ◌&&◌, ◌||◌, Option, none, some, String, str_eq, List, [],
  ◌∷◌, map, length, leb, ◌==◌, if◌then◌else◌,
}
use ferrosonic.Prelude.Results.{Result, ok, err, and_then}
use ferrosonic.Prelude.Text.{codes}
use ferrosonic.Config.{Config, PasswordEval, shell, argv}
use ferrosonic.Config.Filters.{is_some_and}
use ferrosonic.SecretStore
use ferrosonic.SecretStore.{KeyStore}

-- How a spawned command went: the process with its pipes, its session and its time limit is the
-- system's. A code is `none` for a process that a signal ended.
pub data CommandRun : Type 0 where
  failed_to_start : String → CommandRun
  wait_failed : String → CommandRun
  timed_out : CommandRun
  finished : (exit_code : Option ℕ) → (stdout stderr : String) → CommandRun

pub data EvalError : Type 0 where
  array_is_empty : EvalError
  did_not_run : CommandRun → EvalError
  exited : Option ℕ → String → EvalError
  no_output : EvalError

-- The environment, the files, the keychain and the processes of the machine; `X` is the error of a
-- file operation.
pub record Machine (D X : Type 0) : Type 0 where
  pub env : String → Option String
  pub read_to_string : String → D → Result X String
  pub run_command : String → List String → D → CommandRun × D
  pub keys : KeyStore D

-- `split('\n').next()`.
unfoldable pub first_line : String → String
first_line String.[] = ""
first_line (String.◌∷◌ c s) =
    let rest = first_line s in if code c == 10 then "" else String.◌∷◌ c rest

-- `trim_end_matches('\r')`.
unfoldable pub trim_end_cr : String → String
trim_end_cr String.[] = ""
trim_end_cr (String.◌∷◌ c s) =
    let rest = trim_end_cr s in if (code c == 13) && str_eq rest "" then "" else String.◌∷◌ c rest

unfoldable pub extract_secret_line : String → String
unfolding first_line trim_end_cr
extract_secret_line raw = trim_end_cr (first_line raw)

-- `strip_prefix`.
unfoldable pub strip_prefix : String → String → Option String
strip_prefix String.[] s = some s
strip_prefix (String.◌∷◌ p ps) String.[] = none
strip_prefix (String.◌∷◌ p ps) (String.◌∷◌ c s) =
    let rest = strip_prefix ps s in if code p == code c then rest else none

unfoldable pub is_name_byte : ℕ → Bool
is_name_byte c =
    (leb b'0' c && leb c b'9')
    || ((leb b'A' c && leb c b'Z') || ((leb b'a' c && leb c b'z') || (c == b'_')))

-- The longest run of name bytes, and what follows it.
unfoldable pub name_run : String → String × String
unfolding is_name_byte
name_run String.[] = ("", "")
name_run (String.◌∷◌ c s) =
    let later = name_run s in
    if is_name_byte (code c) then (String.◌∷◌ c later.0, later.1) else ("", String.◌∷◌ c s)

-- The text up to a closing brace, and what follows the brace.
unfoldable pub to_brace : String → Option (String × String)
to_brace String.[] = none
to_brace (String.◌∷◌ c s) =
    let later = to_brace s in
    if code c == b'}'
    then some ("", s)
    else elim later [ some (name, rest) ↦ some (String.◌∷◌ c name, rest) | none ↦ none ]

-- The name of the variable behind a dollar sign, empty where there is none, and what follows it.
unfoldable pub variable : String → String × String
unfolding to_brace name_run
variable String.[] = ("", "")
variable (String.◌∷◌ c s) =
    if code c == b'{'
    then elim (to_brace s) [ some found ↦ found | none ↦ ("", String.◌∷◌ c s) ]
    else name_run (String.◌∷◌ c s)

abbrev pub or_empty : Option String → String
or_empty none = ""
or_empty (some s) = s

module _ {D X : Type 0} (m : Machine D X) where
  unfoldable pub expand_tilde : String → String
  unfolding strip_prefix
  expand_tilde path = elim (strip_prefix "~/" path) [
    | none ↦ path
    | some rest ↦ elim (m.env "HOME") [
      | some home ↦ str_append home (str_append "/" rest)
      | none ↦ path
    ]
  ]

  -- The loop of `expand_env_tilde`, on fuel: each turn takes a character at least.
  unfoldable pub expand_env : ℕ → String → String
  unfolding variable
  expand_env zero s = ""
  expand_env (suc n) String.[] = ""
  expand_env (suc n) (String.◌∷◌ c s) = elim ((code c == b'$') && not (str_eq s "")) [
    | false ↦ String.◌∷◌ c (expand_env n s)
    | true ↦ elim (str_eq (variable s).0 "") [
      | true ↦ String.◌∷◌ c (expand_env n s)
      | false ↦ str_append (or_empty (m.env (variable s).0)) (expand_env n (variable s).1)
    ]
  ]

  unfoldable pub expand_env_tilde : String → String
  unfolding expand_tilde expand_env
  expand_env_tilde arg = expand_env (length (codes (expand_tilde arg))) (expand_tilde arg)

  -- What a finished command's output is worth.
  unfoldable pub eval_output : CommandRun → Result EvalError String
  unfolding extract_secret_line
  eval_output (finished (some zero) out errors) =
      if str_eq (extract_secret_line out) "" then err no_output else ok (extract_secret_line out)
  eval_output (finished exit_code out errors) = err (exited exit_code errors)
  eval_output run = err (did_not_run run)

  unfoldable pub run_password_eval : PasswordEval → D → Result EvalError String × D
  unfolding expand_env_tilde eval_output
  run_password_eval (shell s) d =
      let out = m.run_command "sh" ("-c" ∷ s ∷ []) d in (eval_output out.0, out.1)
  run_password_eval (argv []) d = (err array_is_empty, d)
  run_password_eval (argv (prog ∷ args)) d =
      let out = m.run_command (expand_env_tilde prog) (map expand_env_tilde args) d in
      (eval_output out.0, out.1)

  module _ {F : Type 0} where
    -- The sources in their order: command, file, keychain; the inline password last.
    unfoldable pub from_eval : PasswordEval → Config F → D → Config F × D
    unfolding run_password_eval
    from_eval eval c d =
        let out = run_password_eval eval d in
        (record c { password = elim out.0 [ ok secret ↦ secret | err e ↦ "" ] }, out.1)

    unfoldable pub from_file : String → Config F → D → Config F × D
    unfolding expand_tilde extract_secret_line
    from_file pf c d = (
      record c {
        password = elim (m.read_to_string (expand_tilde pf) d) [
          | ok contents ↦ extract_secret_line contents
          | err e ↦ ""
        ];
      },
      d,
    )

    unfoldable pub from_keyring : Config F → D → Config F × D
    from_keyring c d =
        let out = SecretStore.retrieve m.keys c.base_url c.username d in
        (record c { password = elim out.0 [ ok found ↦ or_empty found | err e ↦ "" ] }, out.1)

    unfoldable pub from_sources : Config F → D → Config F × D
    unfolding from_eval from_file from_keyring
    from_sources c d = elim c.password_eval [
      | some eval ↦ from_eval eval c d
      | none ↦ elim (is_some_and (λ s. not (str_eq s "")) c.password_file) [
        | true ↦ from_file (or_empty c.password_file) c d
        | false ↦ if c.password_keyring then from_keyring c d else (c, d)
      ]
    ]

    -- `FERROSONIC_PASSWORD`, where it is set and not empty, goes before every source.
    unfoldable pub resolve_password : Config F → D → Config F × D
    unfolding from_sources
    resolve_password c d =
        let secret = or_empty (m.env "FERROSONIC_PASSWORD") in
        if str_eq secret ""
        then from_sources (record c { password_from_env = false }) d
        else (record c { password = secret; password_from_env = true }, d)
