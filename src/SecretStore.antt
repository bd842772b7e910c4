-- ===== src/SecretStore.antt =====
-- secret_store.rs: passwords in the system's keychain, one account for each login. The trait
-- `KeyStore` is the interface of the source; a secret is its text.
use Prim.Native.String.{◌++◌ as str_append}
use ferrosonic.Prelude.{Option, String}
use ferrosonic.Prelude.Results.{Result}

pub data KeyStoreError : Type 0 where
  unavailable : String → KeyStoreError
  backend : String → KeyStoreError

pub record KeyStore (D : Type 0) : Type 0 where
  pub get : String → D → Result KeyStoreError (Option String) × D
  pub set : String → String → D → Result KeyStoreError (Unit {0}) × D
  pub delete : String → D → Result KeyStoreError (Unit {0}) × D

unfoldable pub account : (base_url username : String) → String
account base_url username = str_append username (str_append "@" base_url)

module _ {D : Type 0} (keys : KeyStore D) where
  unfoldable pub store :
      (base_url username password : String) → D → Result KeyStoreError (Unit {0}) × D
  unfolding account
  store base_url username password d = keys.set (account base_url username) password d

  unfoldable pub retrieve :
      (base_url username : String) → D → Result KeyStoreError (Option String) × D
  unfolding account
  retrieve base_url username d = keys.get (account base_url username) d

  unfoldable pub delete : (base_url username : String) → D → Result KeyStoreError (Unit {0}) × D
  unfolding account
  delete base_url username d = keys.delete (account base_url username) d
