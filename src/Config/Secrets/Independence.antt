-- ===== src/Config/Secrets/Independence.antt =====
-- A stale password in the settings has no influence where another source is named.
use ferrosonic.Prelude.{◌≡◌, inl, inr, arith, Bool, true, false, ◌||◌, String, Option-cases}
use ferrosonic.Config.{Config}
use ferrosonic.Config.Disk.{pw_file_set}
use ferrosonic.Config.Filters.{is_some_and}
use ferrosonic.Config.Secrets.{
  Machine, from_eval, from_file, from_keyring, from_sources, resolve_password,
}

-- A command, a file or the keychain is named.
unfoldable pub named_source : {F : Type 0} → Config F → Bool
unfolding pw_file_set
named_source c =
    pw_file_set c.password_file || (is_some_and (λ e. true) c.password_eval || c.password_keyring)

module _ {F D X : Type 0} (m : Machine D X) where
  from_sources-independent :
      (c : Config F) (stale : String) (d : D)
      → named_source c ≡ true
      → from_sources m (record c { password = stale }) d ≡ from_sources m c d
  unfolding from_sources from_eval from_file from_keyring named_source pw_file_set
  from_sources-independent c stale d h = elim (Option-cases c.password_eval) [
    | inr (eval, q) ↦ ground (arith, q)
    | inl n ↦ ground (arith, n)
  ]

  -- Where a command, a file or the keychain is to give the password, the one that stands in the
  -- settings has no influence on the outcome, also when the source fails.
  pub resolve_password-independent :
      (c : Config F) (stale : String) (d : D)
      → named_source c ≡ true
      → resolve_password m (record c { password = stale }) d ≡ resolve_password m c d
  unfolding resolve_password named_source
  resolve_password-independent c stale d h =
      ground (arith, from_sources-independent (record c { password_from_env = false }) stale d h)
